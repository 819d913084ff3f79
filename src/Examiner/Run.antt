-- ===== src/Examiner/Run.antt =====
-- pkg/http/examiner.go: `ExamineConfig` around the loop over the panel.
use xray_knife.Prelude.{
  ℕ, ◌&&◌, not, [], ◌++◌, Option, none, some, if◌then◌else◌, ltb, ◌==◌, length,
}
use xray_knife.Prelude.Int.{pos, negsuc}
use xray_knife.Text.{Text, bytes, is_empty, trim_space, decimal}
use xray_knife.Core.{Core, Fallible, ok, err}
use xray_knife.Examiner.Types.{
  passed, semi_passed, failed, broken, timeout, Result, failed_delay, Examiner, Environment, Panel,
  empty_panel,
}
use xray_knife.Examiner.Endpoints.{append_reason, summarize_endpoints, checks, passes_threshold}
use xray_knife.Examiner.Probe.{run_panel}
use xray_knife.Examiner.Trace.{parse_trace_body}

unfoldable pub initial_result : {P : Type 0} → Text → Result P
initial_result link = record {
  config_link = link;
  protocol = none;
  protocol_info = none;
  status = passed;
  reason = [];
  tls = [];
  real_ip_addr = bytes "null";
  delay = failed_delay;
  http_code = negsuc 0;
  download_speed = 0;
  upload_speed = 0;
  ip_addr_loc = bytes "null";
  ttfb = pos 0;
  connect_time = pos 0;
  success_count = 0;
  total_count = 0;
  endpoint_results = [];
  endpoint_summary = [];
}

-- What the run has recorded when the loop over the panel ends.
unfoldable pub record_panel : {P : Type 0} → Panel → Result P → Result P
record_panel p r = record r {
  delay = p.delay;
  http_code = p.http_code;
  ttfb = p.ttfb;
  connect_time = p.connect_time;
  success_count = p.successes;
  endpoint_results = p.results;
  endpoint_summary = summarize_endpoints p.results;
}

unfoldable pub reachable_note : ℕ → ℕ → Text
reachable_note successes total =
    decimal successes ++ bytes "/" ++ decimal total ++ bytes " endpoints reachable"

unfoldable pub timeout_note : Text
timeout_note = bytes "config delay is more than the maximum allowed delay"

-- The `switch` that grades, with the error of an early return.
unfoldable pub grade : {P : Type 0} → Examiner → Panel → ℕ → Result P → Result P × Option Text
unfolding reachable_note timeout_note
grade e p total r =
    if passes_threshold e p.successes total
    then (
      record r {
        status = passed;
        reason = if ltb 1 total then reachable_note p.successes total else r.reason;
      },
      none,
    )
    else if ltb 0 p.successes
    then (record r { status = semi_passed; reason = reachable_note p.successes total }, none)
    else if total == 1 && not p.first_resp_recorded
    then (record r { status = failed; reason = p.first_fail_reason }, p.first_transport_err)
    else if total == 1 && p.sole_was_timeout
    then (record r { status = timeout; reason = timeout_note }, some timeout_note)
    else let why =
        if is_empty p.first_fail_reason
        then bytes "all endpoints failed"
        else p.first_fail_reason in
      (record r { status = failed; reason = why }, some why)

-- `DoIPInfo`: the trace body of the panel, or a request of its own.
unfoldable pub add_ip_info : {P : Type 0} → Environment → Panel → Result P → Result P
unfolding append_reason
add_ip_info env p r =
    if is_empty p.trace_body
    then elim env.ip_request [
      | err e ↦ record (append_reason (bytes "ip_info_failed") r) { status = semi_passed }
      | ok body ↦ parse_trace_body body r
    ]
    else parse_trace_body p.trace_body r

unfoldable pub run_speedtest : {P : Type 0} → Environment → Result P → Result P
unfolding append_reason
run_speedtest env r = upload_part env.upload (download_part env.download r)
  where
    download_part : {Q : Type 0} → Fallible ℕ → Result Q → Result Q
    download_part (err e) s = append_reason (bytes "speedtest_download_failed: " ++ e) s
    download_part (ok speed) s = record s { download_speed = speed }

    upload_part : {Q : Type 0} → Fallible ℕ → Result Q → Result Q
    upload_part (err e) s = append_reason (bytes "speedtest_upload_failed: " ++ e) s
    upload_part (ok speed) s = record s { upload_speed = speed }

-- What follows the `switch`, unless it returned an error.
unfoldable pub finish : {P : Type 0} → Environment → Examiner → Panel → Result P → Result P
finish env e p r =
    let s = if e.do_ip_info then add_ip_info env p r else r in
    if e.do_speedtest then run_speedtest env s else s

unfoldable pub after_grade :
    {P : Type 0} → Environment → Examiner → Panel → Result P × Option Text → Result P × Option Text
unfolding finish
after_grade env e p (r, some m) = (r, some m)
after_grade env e p (r, none) = elim r.status [
  | passed ↦ (finish env e p r, none)
  | semi_passed ↦ (finish env e p r, none)
  | _ ↦ (r, none)
]

unfoldable pub broken_result : {P : Type 0} → Text → Result P → Result P × Option Text
broken_result why r = (record r { status = broken; reason = why }, some why)

-- What the run records of a parsed protocol.
unfoldable pub identify : {P : Type 0} → Core P → P → Result P → Result P
identify c proto r =
    let g = c.general proto in
    record r {
      protocol = some proto;
      protocol_info =
          some (record {
            remark = g.remark;
            protocol = g.protocol;
            address = g.address;
            port = g.port;
          });
      tls = g.tls;
    }

-- `ExamineConfig` from the call of `MakeHttpClient` on, by the error of that call.
unfoldable pub with_client :
    {P : Type 0} → Environment → Examiner → Result P → Option Text → Result P × Option Text
unfolding after_grade broken_result record_panel
with_client env e r (some why) = broken_result why r
with_client env e r none =
    let p = run_panel env e 0 (checks e) empty_panel in
    after_grade env e p (
      grade e p (length (checks e)) (record_panel p (record r { total_count = length (checks e) })))

-- From the call of `Parse` on, by its outcome.
unfoldable pub with_parsed :
    {P : Type 0} → Core P → Environment → Examiner → Result P → Fallible P → Result P × Option Text
unfolding with_client broken_result identify
with_parsed c env e r (err why) = broken_result (bytes "parse protocol: " ++ why) r
with_parsed c env e r (ok proto) = with_client env e (identify c proto r) env.make_http_client

-- From the call of `CreateProtocol` on, by its outcome.
unfoldable pub with_created :
    {P : Type 0} → Core P → Environment → Examiner → Result P → Fallible P → Result P × Option Text
unfolding with_parsed broken_result
with_created c env e r (err why) = broken_result (bytes "create protocol: " ++ why) r
with_created c env e r (ok created) = with_parsed c env e r (c.parse created)

unfoldable pub examine_config :
    {P : Type 0} → Core P → Environment → Examiner → Text → Result P × Option Text
unfolding initial_result with_created broken_result
examine_config c env e link =
    let r = initial_result link in
    if is_empty (trim_space link)
    then broken_result (bytes "config link is empty") r
    else with_created c env e r (c.create_protocol (trim_space link))
