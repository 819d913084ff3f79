-- ===== src/Examiner/Probe.antt =====
-- pkg/http/examiner.go: the loop of `ExamineConfig` over the panel.
use xray_knife.Prelude.{
  ℕ, suc, true, false, ◌&&◌, not, List, [], ◌∷◌, ◌++◌, Option, none, some, if◌then◌else◌,
}
use xray_knife.Prelude.Int.{pos, negsuc, ltb_ℤ, eqb_ℤ}
use xray_knife.Text.{Text, bytes, is_empty, contains, decimal}
use xray_knife.Core.{Fallible, ok, err}
use xray_knife.Examiner.Types.{
  Outcome, success, slow, bad_status, error, is_success, EndpointCheck, Examiner, Measured,
  Environment, Panel,
}
use xray_knife.Examiner.Endpoints.{show_ℤ, endpoint_label, status_ok}

-- `if firstFailReason == "" { … }`
unfoldable pub note_fail : Text → Text → Text → Text
note_fail url reason old = if is_empty old then url ++ bytes ": " ++ reason else old

unfoldable pub judge : Examiner → EndpointCheck → Measured → Outcome
unfolding status_ok
judge e chk dr =
    if ltb_ℤ (pos e.max_delay) dr.delay
    then slow
    else if not (status_ok dr.code chk.expect_status)
    then bad_status
    else success

unfoldable pub fail_text : Examiner → EndpointCheck → Measured → Outcome → Text
unfolding show_ℤ
fail_text e chk dr slow =
    bytes "delay "
    ++ show_ℤ dr.delay
    ++ bytes "ms exceeds max "
    ++ decimal e.max_delay
    ++ bytes "ms"
fail_text e chk dr bad_status =
    bytes "unexpected HTTP status "
    ++ show_ℤ dr.code
    ++ (if eqb_ℤ chk.expect_status (pos 0)
        then []
        else bytes " (want " ++ show_ℤ chk.expect_status ++ bytes ")")
fail_text e chk dr _ = []

-- The first endpoint that answers gives the timing of the config.
unfoldable pub record_first : Measured → Panel → Panel
record_first dr p = if p.first_resp_recorded then p else record p {
  delay = dr.delay;
  http_code = dr.code;
  ttfb = dr.ttfb;
  connect_time = dr.connect_time;
  first_resp_recorded = true;
}

unfoldable pub keep_trace : EndpointCheck → Measured → Panel → Panel
keep_trace chk dr p =
    if not (is_empty dr.body) && contains chk.url (bytes "/cdn-cgi/trace")
    then record p { trace_body = dr.body }
    else p

-- The `switch` on a response, and the append.
unfoldable pub add_response :
    (Text → Option Text) → Examiner → EndpointCheck → Measured → Outcome → Panel → Panel
unfolding fail_text note_fail
add_response url_host e chk dr o p = record p {
  successes = if is_success o then suc p.successes else p.successes;
  first_fail_reason =
      if is_success o
      then p.first_fail_reason
      else note_fail chk.url (fail_text e chk dr o) p.first_fail_reason;
  sole_was_timeout = elim o [ slow ↦ true | bad_status ↦ false | _ ↦ p.sole_was_timeout ];
  results =
      p.results
      ++ record {
        url = chk.url;
        label = endpoint_label url_host chk.url;
        outcome = o;
        http_code = dr.code;
        delay = dr.delay;
        reason = fail_text e chk dr o;
      }
        ∷ [];
}

unfoldable pub add_error : (Text → Option Text) → EndpointCheck → Text → Panel → Panel
unfolding note_fail
add_error url_host chk message p = record p {
  results =
      p.results
      ++ record {
        url = chk.url;
        label = endpoint_label url_host chk.url;
        outcome = error;
        http_code = negsuc 0;
        delay = negsuc 0;
        reason = message;
      }
        ∷ [];
  first_fail_reason = note_fail chk.url message p.first_fail_reason;
  first_transport_err = elim p.first_transport_err [ none ↦ some message | some m ↦ some m ];
}

-- One round of the loop over the checks.
unfoldable pub probe : Environment → Examiner → EndpointCheck → Fallible Measured → Panel → Panel
unfolding judge record_first keep_trace add_response add_error is_success
probe env e chk (err message) p = add_error env.url_host chk message p
probe env e chk (ok dr) p =
    add_response env.url_host e chk dr (judge e chk dr) (keep_trace chk dr (record_first dr p))

unfoldable pub run_panel : Environment → Examiner → ℕ → List EndpointCheck → Panel → Panel
unfolding probe
run_panel env e i [] p = p
run_panel env e i (chk ∷ chks) p =
    let rest = run_panel env e (suc i) chks (probe env e chk (env.measure i chk) p) in
    if env.cancelled i then p else rest
