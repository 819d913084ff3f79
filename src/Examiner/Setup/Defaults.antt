-- ===== src/Examiner/Setup/Defaults.antt =====
-- What a new examiner can rely on.
use xray_knife.Prelude.{
  ℕ, ◌≤◌, ◌≡◌, ◌≢◌, refl, ◌↔◌, ◌⊎◌, true, List, [], ◌∷◌, map, Option, some, ◌==◌, arith, Bool-cases,
  Option-cases, All, length, inl, inr,
}
use mathlib.Core.Path.{subst}
use xray_knife.Prelude.Int.{pos}
use xray_knife.Text.{Text, is_empty}
use xray_knife.Text.Equality.{is_empty_iff}
use xray_knife.Core.{ok, err}
use xray_knife.Examiner.Types.{EndpointCheck, Examiner}
use xray_knife.Examiner.Endpoints.{checks, fill_defaults}
use xray_knife.Examiner.Setup.{Floats, Options, Setup, or_number, setup, new_examiner}

fill_defaults-method : (c : EndpointCheck) → (fill_defaults c).method ≢ []
unfolding fill_defaults
fill_defaults-method c = elim (Bool-cases (is_empty c.method)) [
  | inl e ↦ rw e (λ q. cc q)
  | inr e ↦ rw e (λ q. cc (e, (is_empty_iff c.method).1 q))
]

All-fill_defaults :
    (cs : List EndpointCheck) → All (λ (c : EndpointCheck). c.method ≢ []) (map fill_defaults cs)
All-fill_defaults [] = tt
All-fill_defaults (c ∷ cs) = (fill_defaults-method c, All-fill_defaults cs)

list_cases : {A : Type 0} (l : List A) → (l ≡ []) ⊎ ((a : A) × (rest : List A) × (l ≡ a ∷ rest))
list_cases [] = inl refl
list_cases (a ∷ rest) = inr (a, rest, refl)

-- The panel of any examiner has an endpoint, and each has a method.
checks_ready :
    (e : Examiner) → (1 ≤ length (checks e)) × All (λ (c : EndpointCheck). c.method ≢ []) (checks e)
unfolding checks
checks_ready e = elim (list_cases e.test_endpoints) [
  | inl h ↦ rw h (
    omega arith,
    All-fill_defaults (
        record {
          url = e.test_endpoint;
          method = e.test_endpoint_http_method;
          expect_status = pos 0;
        }
        ∷ []),
  )
  | inr (c, cs, h) ↦ rw h (omega arith, All-fill_defaults (c ∷ cs))
]

or_number_ne : (d n : ℕ) → d ≢ 0 → or_number d n ≢ 0
unfolding or_number
or_number_ne d n h = elim (Bool-cases (n == 0)) [
  | inl e ↦ rw e h
  | inr e ↦ rw e (λ q. let z : (n == 0) ≡ true = ground (arith, q) in cc (e, z))
]

-- The timeouts and the panel of an examiner that is ready to run.
pub record IsReady {F : Type 0} (opts : Options F) (s : Setup) : Type 0 where
  pub max_delay : s.examiner.max_delay ≢ 0
  pub timeout : s.timeout ≢ 0
  pub amount : s.speedtest_kb_amount ≢ 0
  pub set : opts.timeout ≢ 0 → s.timeout ≡ opts.timeout
  pub unset : opts.timeout ≡ 0 → s.timeout ≡ s.examiner.max_delay
  pub panel : 1 ≤ length (checks s.examiner)
  pub methods : All (λ (c : EndpointCheck). c.method ≢ []) (checks s.examiner)

module _ {F : Type 0} (floats : Floats F) (bind_error : Text → Option Text) (opts : Options F) where
  setup-IsReady : IsReady opts (setup floats opts)
  unfolding setup
  setup-IsReady =
      let ready = checks_ready (setup floats opts).examiner in
      let delay = or_number_ne 5000 opts.max_delay (λ e. omega (arith, e)) in
      record {
        max_delay = delay;
        timeout = or_number_ne (or_number 5000 opts.max_delay) opts.timeout delay;
        amount = or_number_ne 10000 opts.speedtest_kb_amount (λ e. omega (arith, e));
        set = λ n. unfold or_number in ground (arith, n);
        unset = λ z. unfold or_number in ground (arith, z);
        panel = ready.0;
        methods = ready.1;
      }

  -- A new examiner is refused just when it is to be bound to an interface that cannot be bound to.
  -- Otherwise its maximal delay, its timeout and the amount of its speed test are not zero, its
  -- timeout is the one that was set or else its maximal delay, and its panel has at least one
  -- endpoint, each with a method.
  pub new_examiner-IsReady :
      ((s : Setup) → new_examiner floats bind_error opts ≡ ok s → IsReady opts s)
      × (((e : Text) × (new_examiner floats bind_error opts ≡ err e))
          ↔ ((opts.bind_interface ≢ []) × ((e : Text) × (bind_error opts.bind_interface ≡ some e))))
  unfolding new_examiner
  new_examiner-IsReady = elim (Bool-cases (is_empty opts.bind_interface)) [
    | inl free ↦
        rw (new_examiner, free)
          (
            λ s h. subst (λ x. IsReady opts x) (cc h) setup-IsReady,
            (λ w. absurd (cc w.1), λ w. absurd (w.0 ((is_empty_iff opts.bind_interface).0 free))),
          )
    | inr bound ↦ elim (Option-cases (bind_error opts.bind_interface)) [
      | inl fine ↦
          rw (new_examiner, bound, fine)
            (
              λ s h. subst (λ x. IsReady opts x) (cc h) setup-IsReady,
              (λ w. absurd (cc w.1), λ w. absurd (cc w.1.1)),
            )
      | inr (e, bad) ↦
          rw (new_examiner, bound, bad)
            (
              λ s h. absurd (cc h),
              (
                λ w. ((λ q. cc (bound, (is_empty_iff opts.bind_interface).1 q)), (e, refl)),
                λ w. (_, refl),
              ),
            )
    ]
  ]
