-- ===== src/Tests.antt =====
-- The inputs of the tests: a core over texts that reads every link but those that contain "bad", and
-- some links.
mod Links
mod Chains
mod Examinations
mod Rotations
mod Clients
mod Life
mod Subnets
mod Scans
mod Startups
mod Modes
use Prim.Native.String.{String}
use xray_knife.Prelude.{
  ℕ, Bool, true, false, List, [], ◌∷◌, ◌++◌, Option, none, some, if◌then◌else◌,
}
use xray_knife.Text.{Text, bytes, contains, trim_prefix}
use xray_knife.Core.{Fallible, ok, err, Core, ProtocolApi, GeneralConfig}

abbrev pub general_of : Text → GeneralConfig
general_of p = record {
  protocol = bytes "vmess";
  address = trim_prefix p (bytes "vmess://");
  network = bytes "tcp";
  port = bytes "443";
  remark = [];
  tls = [];
  kind = bytes "ws";
  orig_link = p;
}

abbrev pub text_api : ProtocolApi Text
text_api = record { parse = λ p. ok p; get_link = λ p. p; general = general_of }

abbrev pub text_core : Core Text
text_core = record {
  create_protocol =
      λ link. if contains link (bytes "bad") then err (bytes "unreadable") else ok link;
  api = text_api;
}

-- A core that reads nothing.
abbrev pub deaf_core : Core Text
deaf_core = record { create_protocol = λ link. err (bytes "no"); api = text_api }

abbrev pub link_a : Text
link_a = bytes "vmess://a"

abbrev pub link_b : Text
link_b = bytes "vmess://b"

abbrev pub link_bad : Text
link_bad = bytes "bad://c"

abbrev pub pool : List Text
pool = link_a ∷ link_bad ∷ bytes " vmess://b" ∷ [] ∷ link_a ∷ []
