-- ===== src/Examiner/Verdict.antt =====
-- What the grade of a config says about its panel, and when an error comes with it.
use mathlib.Core.Path.{subst}
use xray_knife.Prelude.{
  ℕ, ◌≤◌, ◌<◌, ◌≡◌, ◌≢◌, refl, sym, ◌∙◌, true, false, List, [], ◌∷◌, Option, none, some, arith,
  length, count_if, Bool-cases, inl, inr, ◌⊎◌,
}
use xray_knife.Text.{Text, is_empty, split, trim_space}
use xray_knife.Core.{Fallible-cases, Core, Fallible, ok, err}
use xray_knife.Examiner.Types.{
  passed, semi_passed, failed, broken, timeout, Examiner, Environment, Panel, empty_panel, Result,
  failed_delay,
}
use xray_knife.Examiner.Endpoints.{checks, passes_threshold, append_reason}
use xray_knife.Examiner.Probe.{run_panel}
use xray_knife.Examiner.Trace.{trace_line, trace_lines, parse_trace_body}
use xray_knife.Examiner.Run.{
  record_panel, grade, add_ip_info, run_speedtest, finish, after_grade, broken_result, with_client,
  with_created, with_parsed, initial_result, identify, examine_config,
}
use xray_knife.Examiner.Counting.{succeeded, IsCounted, panel-IsCounted}

-- The later steps of a run change no count; they can only lower the status, to `semi_passed`.
pub record Keeps {P : Type 0} (r s : Result P) : Type 0 where
  pub successes : s.success_count ≡ r.success_count
  pub total : s.total_count ≡ r.total_count
  pub endpoints : s.endpoint_results ≡ r.endpoint_results
  pub delay : s.delay ≡ r.delay
  pub status : (s.status ≡ r.status) ⊎ (s.status ≡ semi_passed)

module _ {P : Type 0} where
  Keeps-refl : (r : Result P) → Keeps r r
  Keeps-refl r = record {
    successes = refl;
    total = refl;
    endpoints = refl;
    delay = refl;
    status = inl refl;
  }

  Keeps-trans : (r s t : Result P) → Keeps r s → Keeps s t → Keeps r t
  Keeps-trans r s t h k = record {
    successes = k.successes ∙ h.successes;
    total = k.total ∙ h.total;
    endpoints = k.endpoints ∙ h.endpoints;
    delay = k.delay ∙ h.delay;
    status = ground (arith, h.status, k.status);
  }

  trace_line-Keeps : (r : Result P) (line : Text) → Keeps r (trace_line r line)
  unfolding trace_line
  trace_line-Keeps r line = ground arith

  trace_lines-Keeps : (r : Result P) (lines : List Text) → Keeps r (trace_lines r lines)
  unfolding trace_lines
  trace_lines-Keeps r [] = Keeps-refl r
  trace_lines-Keeps r (line ∷ lines) =
      Keeps-trans r (trace_line r line) _ (trace_line-Keeps r line)
        (trace_lines-Keeps (trace_line r line) lines)

  parse_trace_body-Keeps : (body : Text) (r : Result P) → Keeps r (parse_trace_body body r)
  unfolding parse_trace_body
  parse_trace_body-Keeps body r = elim (Bool-cases (is_empty body)) [
    | inl e ↦ rw e (Keeps-refl r)
    | inr e ↦ rw e (trace_lines-Keeps r (split body 10))
  ]

  add_ip_info-Keeps : (env : Environment) (p : Panel) (r : Result P) → Keeps r (add_ip_info env p r)
  unfolding add_ip_info append_reason
  add_ip_info-Keeps env p r = elim (Bool-cases (is_empty p.trace_body)) [
    | inr e ↦ rw e (parse_trace_body-Keeps p.trace_body r)
    | inl e ↦ elim (Fallible-cases env.ip_request) [
      | inl (body, f) ↦ rw (e, f) (parse_trace_body-Keeps body r)
      | inr (x, f) ↦ rw (e, f) (ground arith)
    ]
  ]

  run_speedtest-Keeps : (env : Environment) (r : Result P) → Keeps r (run_speedtest env r)
  unfolding run_speedtest append_reason
  run_speedtest-Keeps env r = ground arith

  finish-Keeps :
      (env : Environment) (e : Examiner) (p : Panel) (r : Result P) → Keeps r (finish env e p r)
  unfolding finish
  finish-Keeps env e p r = ground (
    arith,
    Keeps-refl r,
    add_ip_info-Keeps env p r,
    run_speedtest-Keeps env r,
    run_speedtest-Keeps env (add_ip_info env p r),
    Keeps-trans r (add_ip_info env p r) (run_speedtest env (add_ip_info env p r)),
  )

-- What a graded result says.
pub record IsGraded {P : Type 0} (e : Examiner) (r : Result P) (m : Option Text) : Type 0 where
  pub counted : r.success_count ≡ count_if succeeded r.endpoint_results
  pub probed : length r.endpoint_results ≤ r.total_count
  pub total : r.total_count ≡ length (checks e)
  pub clears : r.status ≡ passed → passes_threshold e r.success_count r.total_count ≡ true
  pub partial :
      r.status ≡ semi_passed
      → (0 < r.success_count) ⊎ (passes_threshold e r.success_count r.total_count ≡ true)
  pub fails : (r.status ≡ failed) ⊎ (r.status ≡ timeout) → r.success_count ≡ 0
  pub not_broken : r.status ≢ broken
  pub reported : m ≢ none → (r.status ≡ failed) ⊎ (r.status ≡ timeout)
  pub unreported :
      m ≡ none → (r.status ≡ passed) ⊎ (r.status ≡ semi_passed) ⊎ (r.endpoint_results ≡ [])

module _ {P : Type 0} (e : Examiner) where
  grade-IsGraded :
      (p : Panel) (n : ℕ) (r : Result P)
      → IsCounted p
      → length p.results ≤ n
      → n ≡ length (checks e)
      → r.total_count ≡ n
      → let g = grade e p n (record_panel p r) in IsGraded e g.0 g.1
  unfolding grade record_panel
  grade-IsGraded p n r h b t u = record {
    counted = ground (arith, h.counted);
    probed = ground (arith);
    total = ground (arith);
    clears = ground (arith);
    partial = ground (arith);
    fails = ground (arith);
    not_broken = ground (arith);
    reported = ground (arith);
    unreported = ground (arith);
  }

  Keeps-IsGraded :
      (r s : Result P)
      → Keeps r s
      → IsGraded e r none
      → r.status ≢ failed
      → r.status ≢ timeout
      → IsGraded e s none
  Keeps-IsGraded r s k g n1 n2 = ground (arith, k.status, k.successes, k.total, k.endpoints)

  after_grade-IsGraded :
      (env : Environment) (p : Panel) (r : Result P) (m : Option Text)
      → IsGraded e r m
      → IsGraded e (after_grade env e p (r, m)).0 (after_grade env e p (r, m)).1
  unfolding after_grade
  after_grade-IsGraded env p r (some m) g = g
  after_grade-IsGraded env p r none g =
      ground (arith, g, Keeps-IsGraded r (finish env e p r) (finish-Keeps env e p r) g)

  with_client-IsGraded :
      (env : Environment) (r : Result P) → let x = with_client env e r none in IsGraded e x.0 x.1
  unfolding with_client
  with_client-IsGraded env r =
      let p = run_panel env e 0 (checks e) empty_panel in
      let (k, b) = panel-IsCounted env e (checks e) in
      let s = record r { total_count = length (checks e) } in
      let (t, m) = grade e p (length (checks e)) (record_panel p s) in
      after_grade-IsGraded env p t m (grade-IsGraded p (length (checks e)) s k b refl refl)

-- The link is broken: nothing was probed, and the reason is the error.
pub record IsBroken {P : Type 0} (r : Result P) (m : Option Text) : Type 0 where
  pub status : r.status ≡ broken
  pub error : m ≡ some r.reason
  pub unprobed : r.endpoint_results ≡ []
  pub untimed : r.delay ≡ failed_delay

-- The link is read and gets a client.
abbrev pub IsRunnable : {P : Type 0} → Core P → Environment → Text → Type 0
IsRunnable {P} c env link =
    (is_empty (trim_space link) ≡ false)
    × ((created : P) × (proto : P) × (c.create_protocol (trim_space link) ≡ ok created)
        × (c.parse created ≡ ok proto))
    × (env.make_http_client ≡ none)

module _ {P : Type 0} (c : Core P) (env : Environment) (e : Examiner) where
  runnable-IsGraded :
      (link : Text)
      → IsRunnable c env link
      → let x = examine_config c env e link in IsGraded e x.0 x.1
  unfolding examine_config with_created with_parsed
  runnable-IsGraded link (full, (created, proto, f, g), h) =
      rw (full, f, g)
        (subst
          (λ (o : Option Text).
            let x = with_client env e (identify c proto (initial_result link)) o in
            IsGraded e x.0 x.1)
          (sym h) (with_client-IsGraded e env (identify c proto (initial_result link))))

  identified-IsBroken :
      (link : Text) (created proto : P) (o : Option Text)
      → ¬ (o ≡ none)
      → let x = with_client env e (identify c proto (initial_result link)) o in IsBroken x.0 x.1
  unfolding with_client broken_result identify initial_result
  identified-IsBroken link created proto none n = absurd (n refl)
  identified-IsBroken link created proto (some why) n = ground arith

  parsed-IsBroken :
      (link : Text) (created : P) (m : Fallible P)
      → ((proto : P) → m ≡ ok proto → ¬ (env.make_http_client ≡ none))
      → let x = with_parsed c env e (initial_result link) m in IsBroken x.0 x.1
  unfolding with_parsed broken_result initial_result
  parsed-IsBroken link created (err why) n = ground arith
  parsed-IsBroken link created (ok proto) n =
      unfold initial_result in
      identified-IsBroken link created proto env.make_http_client (n proto refl)

  created-IsBroken :
      (link : Text) (m : Fallible P)
      → ((created proto : P)
          → m ≡ ok created
          → c.parse created ≡ ok proto
          → ¬ (env.make_http_client ≡ none))
      → let x = with_created c env e (initial_result link) m in IsBroken x.0 x.1
  unfolding with_created broken_result initial_result
  created-IsBroken link (err why) n = ground arith
  created-IsBroken link (ok created) n =
      parsed-IsBroken link created (c.parse created) (λ proto g. n created proto refl g)

  -- A link that is blank, that the core cannot create or parse, or that gets no client, is broken:
  -- its error is its reason, and no endpoint was probed. Every other link is graded: its count of
  -- successes is that of its endpoint results, no more endpoints were probed than there are
  -- checks, a passed result clears the threshold, a result that failed or timed out has no
  -- success, an error comes only with those two, and without an error one that is neither passed
  -- nor semi-passed probed nothing.
  pub examine_config-IsGraded :
      (link : Text)
      → let x = examine_config c env e link in
        (IsRunnable c env link → IsGraded e x.0 x.1) × (¬ IsRunnable c env link → IsBroken x.0 x.1)
  unfolding examine_config broken_result
  examine_config-IsGraded link = (
    runnable-IsGraded link,
    λ n. elim (Bool-cases (is_empty (trim_space link))) [
      | inl blank ↦ rw blank (unfold initial_result in ground arith)
      | inr full ↦ rw full (
          created-IsBroken link (c.create_protocol (trim_space link))
            (λ created proto f g h. n (full, (created, proto, f, g), h)))
    ],
  )
