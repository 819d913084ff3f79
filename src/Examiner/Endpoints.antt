-- ===== src/Examiner/Endpoints.antt =====
-- pkg/http/examiner.go: labels, summaries and expected codes of the endpoints of a panel.
use xray_knife.Prelude.{
  ℕ, ◌+◌, Bool, true, false, ◌&&◌, not, List, [], ◌∷◌, ◌++◌, map, Option, none, some, if◌then◌else◌,
  leb, ◌==◌,
}
use xray_knife.Prelude.Int.{ℤ, pos, negsuc, ltb_ℤ, eqb_ℤ}
use xray_knife.Text.{Text, bytes, is_empty, trim_prefix, contains, cut, join, decimal}
use xray_knife.Examiner.Types.{
  success, slow, bad_status, error, EndpointCheck, EndpointResult, Result, Examiner,
}

unfoldable pub show_ℤ : ℤ → Text
show_ℤ (pos n) = decimal n
show_ℤ (negsuc n) = b'-' ∷ decimal (n + 1)

unfoldable pub append_reason : {P : Type 0} → Text → Result P → Result P
append_reason note r = record r {
  reason = (if is_empty r.reason then [] else r.reason ++ bytes "; ") ++ note;
}

-- `url_host` is url.Parse with the host name that it finds, `none` where it fails or finds none.
unfoldable pub endpoint_label : (Text → Option Text) → Text → Text
endpoint_label url_host raw_url = elim (url_host raw_url) [
  | some host ↦ trim_prefix host (bytes "www.")
  | none ↦
      let s = trim_prefix (trim_prefix raw_url (bytes "https://")) (bytes "http://") in
      elim (cut s (bytes "/")) [ none ↦ s | some (before, _) ↦ before ]
]

unfoldable pub summarize_endpoint : EndpointResult → Text
unfolding show_ℤ
summarize_endpoint er = elim er.outcome [
  | success ↦ er.label ++ bytes "=ok(" ++ show_ℤ er.delay ++ bytes "ms)"
  | slow ↦ er.label ++ bytes "=slow(" ++ show_ℤ er.delay ++ bytes "ms)"
  | bad_status ↦ er.label ++ bytes "=status" ++ show_ℤ er.http_code
  | error ↦ er.label ++ bytes "=error"
]

unfoldable pub summarize_endpoints : List EndpointResult → Text
unfolding summarize_endpoint
summarize_endpoints results = join (map summarize_endpoint results) (bytes "; ")

unfoldable pub status_ok : ℤ → ℤ → Bool
status_ok code expect =
    if not (eqb_ℤ expect (pos 0))
    then eqb_ℤ code expect
    else not (ltb_ℤ code (pos 200)) && ltb_ℤ code (pos 300)

unfoldable pub expected_status_for : Text → ℤ
expected_status_for raw_url = if contains raw_url (bytes "generate_204") then pos 204 else pos 0

-- The loop of `checks`.
unfoldable pub fill_defaults : EndpointCheck → EndpointCheck
unfolding expected_status_for
fill_defaults c = record c {
  method = if is_empty c.method then bytes "GET" else c.method;
  expect_status =
      if eqb_ℤ c.expect_status (pos 0) then expected_status_for c.url else c.expect_status;
}

unfoldable pub checks : Examiner → List EndpointCheck
unfolding fill_defaults
checks e = map fill_defaults (panel e.test_endpoints)
  where
    panel : List EndpointCheck → List EndpointCheck
    panel [] =
        record {
          url = e.test_endpoint;
          method = e.test_endpoint_http_method;
          expect_status = pos 0;
        }
        ∷ []
    panel (c ∷ cs) = c ∷ cs

unfoldable pub passes_threshold : Examiner → ℕ → ℕ → Bool
passes_threshold e successes total =
    if total == 0 then false else if leb total successes then true else e.clears successes total
