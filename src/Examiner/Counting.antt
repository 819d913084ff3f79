-- ===== src/Examiner/Counting.antt =====
-- What the loop over the panel has counted and recorded when it ends.
use xray_knife.Prelude.{
  ℕ, suc, ◌+◌, ◌≤◌, ◌≡◌, refl, sym, ap, ◌∙◌, Bool, true, false, List, [], ◌∷◌, ◌++◌, none, arith,
  length, count_if, length-append, Bool-cases, inl, inr, if◌then◌else◌,
}
use xray_knife.Core.{Fallible, ok, err}
use xray_knife.Examiner.Types.{
  Outcome, error, is_success, EndpointCheck, EndpointResult, Examiner, Measured, Environment, Panel,
  empty_panel,
}
use xray_knife.Examiner.Probe.{probe, run_panel, judge, record_first, keep_trace}

abbrev pub succeeded : EndpointResult → Bool
succeeded er = is_success er.outcome

pub count_if-append :
    (rs : List EndpointResult) (er : EndpointResult)
    → count_if succeeded (rs ++ er ∷ []) ≡ count_if succeeded rs + (if succeeded er then 1 else 0)
count_if-append [] er = ground arith
count_if-append (r ∷ rs) er = ground (arith, count_if-append rs er)

pub count_if-le-length : (rs : List EndpointResult) → count_if succeeded rs ≤ length rs
count_if-le-length [] = omega arith
count_if-le-length (r ∷ rs) = ground (arith, count_if-le-length rs)

-- Between two rounds: the counter of successes is that of the results; where no endpoint has
-- answered there is no success, and a missing transport error then means that none was probed.
pub record IsCounted (p : Panel) : Type 0 where
  pub counted : p.successes ≡ count_if succeeded p.results
  pub answered : p.first_resp_recorded ≡ false → p.successes ≡ 0
  pub silent : p.first_resp_recorded ≡ false → p.first_transport_err ≡ none → p.results ≡ []

-- What a response sets before it is judged.
prepare_same :
    (chk : EndpointCheck) (dr : Measured) (p : Panel)
    → let q = keep_trace chk dr (record_first dr p) in
      (q.results ≡ p.results) × (q.successes ≡ p.successes) × (q.first_resp_recorded ≡ true)
unfolding keep_trace record_first
prepare_same chk dr p = ground arith

add_counted :
    (o : Outcome) (n : ℕ) (rs : List EndpointResult) (er : EndpointResult)
    → er.outcome ≡ o
    → n ≡ count_if succeeded rs
    → (if is_success o then suc n else n) ≡ count_if succeeded (rs ++ er ∷ [])
add_counted o n rs er e h = rw (← e) (ground (arith, count_if-append rs er))

pub probe-IsCounted :
    (env : Environment) (e : Examiner) (chk : EndpointCheck) (m : Fallible Measured) (p : Panel)
    → IsCounted p
    → IsCounted (probe env e chk m p)
unfolding probe is_success
probe-IsCounted env e chk (err x) p h = record {
  counted = add_counted error p.successes p.results _ refl h.counted;
  answered = h.answered;
  silent = λ n t. absurd (ground arith);
}
probe-IsCounted env e chk (ok dr) p h =
    let q = keep_trace chk dr (record_first dr p) in
    let same = prepare_same chk dr p in
    record {
      counted =
          add_counted (judge e chk dr) q.successes q.results _ refl
            (same.1 ∙ h.counted ∙ ap (count_if succeeded) (sym same.0));
      answered = λ n. cc (same.2, n);
      silent = λ n t. cc (same.2, n);
    }

pub length-probe :
    (env : Environment) (e : Examiner) (chk : EndpointCheck) (m : Fallible Measured) (p : Panel)
    → length (probe env e chk m p).results ≡ suc (length p.results)
unfolding probe
length-probe env e chk (ok dr) p =
    let same = prepare_same chk dr p in
    omega (arith, length-append (keep_trace chk dr (record_first dr p)).results _, ap length same.0)
length-probe env e chk (err x) p = omega (arith, length-append p.results _)

pub run_panel-IsCounted :
    (env : Environment) (e : Examiner) (i : ℕ) (chks : List EndpointCheck) (p : Panel)
    → IsCounted p
    → IsCounted (run_panel env e i chks p)
      × (length (run_panel env e i chks p).results ≤ length p.results + length chks)
unfolding run_panel
run_panel-IsCounted env e i [] p h = (h, omega arith)
run_panel-IsCounted env e i (chk ∷ chks) p h =
    let q = probe env e chk (env.measure i chk) p in
    let (rest, bound) =
      run_panel-IsCounted env e (suc i) chks q
        (probe-IsCounted env e chk (env.measure i chk) p h) in
    elim (Bool-cases (env.cancelled i)) [
      | inl stop ↦ rw stop (h, omega arith)
      | inr go ↦ rw go (rest, omega (arith, bound, length-probe env e chk (env.measure i chk) p))
    ]

-- After the loop of a whole run.
pub panel-IsCounted :
    (env : Environment) (e : Examiner) (chks : List EndpointCheck)
    → IsCounted (run_panel env e 0 chks empty_panel)
      × (length (run_panel env e 0 chks empty_panel).results ≤ length chks)
panel-IsCounted env e chks =
    let (h, bound) =
      run_panel-IsCounted env e 0 chks empty_panel
        (record { counted = refl; answered = λ n. refl; silent = λ n t. refl }) in
    (h, omega arith)
