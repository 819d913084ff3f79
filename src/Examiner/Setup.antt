-- ===== src/Examiner/Setup.antt =====
-- pkg/http/examiner.go: `NewExaminer`, and the named panels. The success threshold is a float, with
-- its test for a positive value, the value 1.0 and the comparison of passesThreshold as arguments.
pub mod Defaults
use xray_knife.Prelude.{
  ℕ, Bool, true, false, ◌||◌, List, [], ◌∷◌, ◌++◌, Option, none, some, if◌then◌else◌, ◌==◌,
}
use xray_knife.Prelude.Int.{pos}
use xray_knife.Text.{Text, bytes, eq_text, is_empty}
use xray_knife.Core.{Fallible, ok, err, Engine, xray, singbox}
use xray_knife.Examiner.Types.{EndpointCheck, Examiner}

pub record Floats (F : Type 0) : Type 0 where
  pub is_positive : F → Bool
  pub one : F
  pub clears : F → ℕ → ℕ → Bool

pub record Options (F : Type 0) : Type 0 where
  pub core : Text
  pub max_delay : ℕ
  pub timeout : ℕ
  pub do_speedtest : Bool
  pub do_ip_info : Bool
  pub test_endpoint : Text
  pub test_endpoint_http_method : Text
  pub test_endpoints : List EndpointCheck
  pub success_threshold : F
  pub speedtest_kb_amount : ℕ
  pub speedtest_timeout : ℕ
  pub retries : ℕ
  pub bind_interface : Text

-- The core of an examiner: one of the two engines, or the automatic core over both.
pub data CoreChoice : Type 0 where
  only : Engine → CoreChoice
  automatic : CoreChoice

-- A new examiner: what its runs read, and its further fields.
pub record Setup : Type 0 where
  pub examiner : Examiner
  pub timeout : ℕ
  pub speedtest_kb_amount : ℕ
  pub speedtest_timeout : ℕ
  pub bind_interface : Text
  pub core : CoreChoice

unfoldable pub or_number : ℕ → ℕ → ℕ
or_number d n = if n == 0 then d else n

unfoldable pub or_text : Text → Text → Text
or_text d s = if is_empty s then d else s

unfoldable pub core_choice : Text → CoreChoice
core_choice core =
    if eq_text core (bytes "xray")
    then only xray
    else if eq_text core (bytes "singbox") || eq_text core (bytes "sing-box")
    then only singbox
    else automatic

module _ {F : Type 0} (floats : Floats F) where
  unfoldable pub threshold : F → F
  threshold t = if floats.is_positive t then t else floats.one

  unfoldable pub setup : Options F → Setup
  unfolding or_number or_text core_choice threshold
  setup opts = record {
    examiner = record {
      max_delay = or_number 5000 opts.max_delay;
      do_speedtest = opts.do_speedtest;
      do_ip_info = opts.do_ip_info;
      test_endpoint = or_text (bytes "https://cloudflare.com/cdn-cgi/trace") opts.test_endpoint;
      test_endpoint_http_method = or_text (bytes "GET") opts.test_endpoint_http_method;
      test_endpoints = opts.test_endpoints;
      clears = floats.clears (threshold opts.success_threshold);
      retries = opts.retries;
    };
    timeout = or_number (or_number 5000 opts.max_delay) opts.timeout;
    speedtest_kb_amount = or_number 10000 opts.speedtest_kb_amount;
    speedtest_timeout = opts.speedtest_timeout;
    bind_interface = opts.bind_interface;
    core = core_choice opts.core;
  }

  -- `bind_error` is the error of netbind.New for an interface, if it has one.
  unfoldable pub new_examiner : (Text → Option Text) → Options F → Fallible Setup
  unfolding setup
  new_examiner bind_error opts =
      if is_empty opts.bind_interface
      then ok (setup opts)
      else elim (bind_error opts.bind_interface) [
        | some e ↦ err (bytes "examiner: " ++ e)
        | none ↦ ok (setup opts)
      ]

gstatic : EndpointCheck
gstatic = record {
  url = bytes "https://www.gstatic.com/generate_204";
  method = bytes "GET";
  expect_status = pos 204;
}

trace : EndpointCheck
trace = record {
  url = bytes "https://cloudflare.com/cdn-cgi/trace";
  method = bytes "GET";
  expect_status = pos 0;
}

youtube : EndpointCheck
youtube = record {
  url = bytes "https://www.youtube.com/generate_204";
  method = bytes "GET";
  expect_status = pos 204;
}

play : EndpointCheck
play = record {
  url = bytes "https://play.google.com/generate_204";
  method = bytes "GET";
  expect_status = pos 204;
}

microsoft : EndpointCheck
microsoft = record {
  url = bytes "http://www.msftconnecttest.com/connecttest.txt";
  method = bytes "GET";
  expect_status = pos 0;
}

apple : EndpointCheck
apple = record {
  url = bytes "https://captive.apple.com/hotspot-detect.html";
  method = bytes "GET";
  expect_status = pos 0;
}

-- The map `CheckPresets`.
unfoldable pub check_presets : List (Text × List EndpointCheck)
unfolding gstatic trace youtube play microsoft apple
check_presets =
    (bytes "cloudflare", trace ∷ [])
    ∷ (bytes "gstatic", gstatic ∷ [])
    ∷ (bytes "global", gstatic ∷ trace ∷ microsoft ∷ apple ∷ [])
    ∷ (bytes "google", gstatic ∷ youtube ∷ play ∷ [])
    ∷ (bytes "streaming", youtube ∷ gstatic ∷ trace ∷ [])
    ∷ []
