-- ===== src/Examiner/Types.antt =====
-- pkg/http/examiner.go: the records and enumerations of the examiner, and what the world answers it.
use xray_knife.Prelude.{ℕ, Bool, true, false, List, [], Option, none}
use xray_knife.Prelude.Int.{ℤ, pos, negsuc}
use xray_knife.Text.{Text}
use xray_knife.Core.{Fallible}

pub data Status : Type 0 where
  passed semi_passed failed broken timeout : Status

pub Status-discrete : Discrete Status
Status-discrete = hlevel

unfoldable pub is_passed : Status → Bool
is_passed passed = true
is_passed _ = false

pub data Outcome : Type 0 where
  success slow bad_status error : Outcome

unfoldable pub is_success : Outcome → Bool
is_success success = true
is_success _ = false

pub record EndpointCheck : Type 0 where
  pub url : Text
  pub method : Text
  pub expect_status : ℤ

pub record EndpointResult : Type 0 where
  pub url : Text
  pub label : Text
  pub outcome : Outcome
  pub http_code : ℤ
  pub delay : ℤ
  pub reason : Text

pub record ProtocolInfo : Type 0 where
  pub remark : Text
  pub protocol : Text
  pub address : Text
  pub port : Text

-- Speeds are float32 values that are never negative, given by their bit patterns, whose order is
-- that of the values.
pub record Result (P : Type 0) : Type 0 where
  pub config_link : Text
  pub protocol : Option P
  pub protocol_info : Option ProtocolInfo
  pub status : Status
  pub reason : Text
  pub tls : Text
  pub real_ip_addr : Text
  pub delay : ℤ
  pub http_code : ℤ
  pub download_speed : ℕ
  pub upload_speed : ℕ
  pub ip_addr_loc : Text
  pub ttfb : ℤ
  pub connect_time : ℤ
  pub success_count : ℕ
  pub total_count : ℕ
  pub endpoint_results : List EndpointResult
  pub endpoint_summary : Text

abbrev pub failed_delay : ℤ
failed_delay = negsuc 0

-- The settings of an examiner that a run reads. `clears` is the comparison of floats in
-- `passesThreshold`: of successes over total, with the small epsilon, against the threshold.
pub record Examiner : Type 0 where
  pub max_delay : ℕ
  pub do_speedtest : Bool
  pub do_ip_info : Bool
  pub test_endpoint : Text
  pub test_endpoint_http_method : Text
  pub test_endpoints : List EndpointCheck
  pub clears : ℕ → ℕ → Bool
  pub retries : ℕ

-- What `MeasureDelayDetailed` returns.
pub record Measured : Type 0 where
  pub delay : ℤ
  pub code : ℤ
  pub body : Text
  pub ttfb : ℤ
  pub connect_time : ℤ

-- What the world answers during one run. `cancelled i` is whether the context is done when the
-- loop comes to its i-th check.
pub record Environment : Type 0 where
  pub url_host : Text → Option Text
  pub make_http_client : Option Text  -- the error, if any
  pub cancelled : ℕ → Bool
  pub measure : ℕ → EndpointCheck → Fallible Measured
  pub ip_request : Fallible Text
  pub download : Fallible ℕ
  pub upload : Fallible ℕ

-- The variables of the loop over the panel, with the fields of the result that it sets.
pub record Panel : Type 0 where
  pub successes : ℕ
  pub results : List EndpointResult
  pub first_fail_reason : Text
  pub first_transport_err : Option Text
  pub first_resp_recorded : Bool
  pub sole_was_timeout : Bool
  pub trace_body : Text
  pub delay : ℤ
  pub http_code : ℤ
  pub ttfb : ℤ
  pub connect_time : ℤ

abbrev pub empty_panel : Panel
empty_panel = record {
  successes = 0;
  results = [];
  first_fail_reason = [];
  first_transport_err = none;
  first_resp_recorded = false;
  sole_was_timeout = false;
  trace_body = [];
  delay = failed_delay;
  http_code = negsuc 0;
  ttfb = pos 0;
  connect_time = pos 0;
}
