-- ===== src/Tests/Examinations.antt =====
-- Tests of the examiner.
use xray_knife.Prelude.{
  true, ℕ, zero, suc, ◌≡◌, ◌<◌, refl, false, [], ◌∷◌, Option, none, some, arith, if◌then◌else◌, leb,
  ◌==◌, ◌*◌,
}
use xray_knife.Prelude.Int.{pos}
use xray_knife.Text.{
  Text, bytes, eq_text, is_empty, has_prefix, trim_prefix, contains, cut, split, join, trim_space,
  strip, space_width, last_space_width, decimal,
}
use xray_knife.Core.{ok, err}
use xray_knife.Examiner.Types.{failed, Result, EndpointCheck, Examiner, Environment, is_passed}
use xray_knife.Examiner.Run.{initial_result, examine_config}
use xray_knife.Examiner.Verdict.{IsGraded, examine_config-IsGraded}
use xray_knife.Examiner.Retry.{with_retries, with_retries_first_passed}
use xray_knife.Examiner.Setup.{
  Floats, Options, or_number, or_text, core_choice, threshold, setup, new_examiner, check_presets,
}
use xray_knife.Examiner.Setup.Defaults.{IsReady, new_examiner-IsReady}
use xray_knife.Pool.Ranking.{rank_delay, less, less_lem}
use xray_knife.Tests.{text_core, link_a}

examiner_code : Unit {0}
unfolding eq_text is_empty has_prefix trim_prefix contains cut split join trim_space strip
    space_width last_space_width decimal is_passed initial_result examine_config with_retries
examiner_code = tt

abbrev google : EndpointCheck
google = record { url = bytes "https://g/204"; method = bytes "GET"; expect_status = pos 204 }

abbrev cloudflare : EndpointCheck
cloudflare = record { url = bytes "https://c/"; method = bytes "GET"; expect_status = pos 0 }

-- Passes with all endpoints.
abbrev panel_examiner : Examiner
panel_examiner = record {
  max_delay = 1000;
  do_speedtest = false;
  do_ip_info = false;
  test_endpoint = bytes "https://g/204";
  test_endpoint_http_method = bytes "GET";
  test_endpoints = google ∷ cloudflare ∷ [];
  clears = λ successes total. leb total successes;
  retries = 1;
}

-- The second endpoint does not answer.
abbrev half_open : Environment
half_open = record {
  url_host = λ url. some url;
  make_http_client = none;
  cancelled = λ i. false;
  measure = λ i check.
      if i == 0
      then ok (record {
        delay = pos 80;
        code = pos 204;
        body = [];
        ttfb = pos 40;
        connect_time = pos 20;
      })
      else err (bytes "refused");
  ip_request = err [];
  download = err [];
  upload = err [];
}

examine_config-IsGraded_example :
    let x = examine_config text_core half_open panel_examiner link_a in
    IsGraded panel_examiner x.0 x.1
unfolding examiner_code
examine_config-IsGraded_example =
    (examine_config-IsGraded text_core half_open panel_examiner link_a).0
      (refl, (link_a, link_a, refl, refl), refl)

-- Run 2 passes.
abbrev third_time : ℕ → Result Text × Option Text
third_time n =
    if n == 2
    then (initial_result link_a, none)
    else (record (initial_result link_a) { status = failed }, some (bytes "refused"))

fails_before : (k : ℕ) → k < 2 → (false ≡ false) × (is_passed (third_time k).0.status ≡ false)
unfolding examiner_code
fails_before zero h = (refl, refl)
fails_before (suc zero) h = (refl, refl)
fails_before (suc (suc k)) h = absurd (omega arith)

with_retries_first_passed_example :
    with_retries third_time (λ n. false) 3 ≡ (initial_result link_a, none)
unfolding examiner_code
with_retries_first_passed_example =
    (with_retries_first_passed third_time (λ n. false) 3).1 2 (omega arith) fails_before refl

setup_code : Unit {0}
unfolding eq_text is_empty or_number or_text core_choice threshold setup new_examiner check_presets
setup_code = tt

-- Thresholds in per cent.
abbrev per_cent : Floats ℕ
per_cent = record {
  is_positive = λ t. leb 1 t;
  one = 100;
  clears = λ t successes total. leb (t * total) (100 * successes);
}

abbrev no_options : Options ℕ
no_options = record {
  core = [];
  max_delay = 0;
  timeout = 0;
  do_speedtest = false;
  do_ip_info = false;
  test_endpoint = [];
  test_endpoint_http_method = [];
  test_endpoints = [];
  success_threshold = 0;
  speedtest_kb_amount = 0;
  speedtest_timeout = 0;
  retries = 0;
  bind_interface = [];
}

new_examiner-IsReady_example : IsReady no_options (setup per_cent no_options)
unfolding setup_code
new_examiner-IsReady_example =
    (new_examiner-IsReady per_cent (λ name. none) no_options).0 (setup per_cent no_options) refl

ranking_code : Unit {0}
unfolding initial_result rank_delay less
ranking_code = tt

abbrev quick : Result Text
quick = record (initial_result link_a) { delay = pos 80 }

less_lem_example : less quick (initial_result link_a) ≡ true
unfolding ranking_code
less_lem_example = (less_lem quick (initial_result link_a) quick).3 80 refl (omega arith) refl
