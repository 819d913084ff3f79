-- ===== src/Scanner/Client/Attempts.antt =====
-- The attempts of the dialer, and the cores that the scanner and the automatic core choose.
use mathlib.Core.Path.{subst}
use xray_knife.Prelude.{
  ℕ, zero, suc, ◌+◌, ◌≤◌, ◌<◌, ◌≡◌, refl, sym, ap, ◌∙◌, ◌⊎◌, inl, inr, true, [], Option, none, some,
  arith, ◌==◌, ==_iff, Bool-cases, Option-cases,
}
use xray_knife.Text.{Text, bytes, eq_text}
use xray_knife.Text.Equality.{eq_text_iff}
use xray_knife.Core.{Fallible, ok, err, Fallible-cases, engine_for_scheme}
use xray_knife.Scanner.Client.{dial_loop, dial_with_retry, selected_core, attempts_failed}

module _ {C : Type 0} (target : Text) (dial : ℕ → Fallible C) (done : ℕ → Option Text) where
  -- Attempt `j` was made and failed.
  abbrev pub HasFailed : ℕ → Type 0
  HasFailed j = (done j ≡ none) × ((e : Text) × (dial j ≡ err e))

  abbrev pub FailedBetween : ℕ → ℕ → Type 0
  FailedBetween i n = (j : ℕ) → i ≤ j → j < n → HasFailed j

  -- How the attempts from `i` up to `limit` end: with the first that connects, with the context
  -- done before one, or with the error of the last.
  abbrev pub EndsWith : ℕ → ℕ → Fallible C → Type 0
  EndsWith i limit out =
      ((n : ℕ) × (conn : C) × (n < limit)
        × FailedBetween i n
        × (done n ≡ none)
        × (dial n ≡ ok conn)
        × (out ≡ ok conn))
      ⊎ (((n : ℕ) × (e : Text) × (n < limit)
            × FailedBetween i n
            × (done n ≡ some e)
            × (out ≡ err e))
          ⊎ ((n : ℕ) × (e : Text) × (suc n ≡ limit)
              × FailedBetween i limit
              × (dial n ≡ err e)
              × (out ≡ err (attempts_failed limit target e))))

  none_between : (i : ℕ) → FailedBetween i i
  none_between i j lo hi = absurd (omega arith)

  one_more : (i n : ℕ) → HasFailed i → FailedBetween (suc i) n → FailedBetween i n
  one_more i n h rest j lo hi = elim (Bool-cases (i == j)) [
    | inl e ↦ subst (λ (k : ℕ). HasFailed k) ((==_iff i j).0 e) h
    | inr e ↦ rest j (ground arith) hi
  ]

  fails_here :
      (i limit : ℕ) (e : Text) (out : Fallible C)
      → i < limit
      → HasFailed i
      → EndsWith (suc i) limit out
      → EndsWith i limit out
  fails_here i limit e out room h w = elim w [
    | inl (n, conn, l, f, d, a, o) ↦ inl (n, conn, l, one_more i n h f, d, a, o)
    | inr v ↦ elim v [
      | inl (n, e, l, f, d, o) ↦ inr (inl (n, e, l, one_more i n h f, d, o))
      | inr (n, e, l, f, a, o) ↦ inr (inr (n, e, l, one_more i limit h f, a, o))
    ]
  ]

  dial_loop_over :
      (i : ℕ) (last : Text)
      → dial_loop target dial done zero i last ≡ err (attempts_failed i target last)
  unfolding dial_loop
  dial_loop_over i last = refl

  -- The first of the attempts, and what follows its failure.
  dial_loop-first :
      (left i limit : ℕ) (last : Text)
      → limit ≡ suc left + i
      → ((e : Text)
          → HasFailed i
          → dial i ≡ err e
          → EndsWith i limit (dial_loop target dial done left (suc i) e))
      → EndsWith i limit (dial_loop target dial done (suc left) i last)
  unfolding dial_loop
  dial_loop-first left i limit last room next = elim (Option-cases (done i)) [
    | inr (e, d) ↦ inr (inl (i, e, omega arith, none_between i, d, rw (dial_loop, d) refl))
    | inl d ↦ elim (Fallible-cases (dial i)) [
      | inl (conn, a) ↦ inl (i, conn, omega arith, none_between i, d, a, rw (dial_loop, d, a) refl)
      | inr (e, a) ↦ rw (dial_loop, d, a) (next e (d, (e, a)) a)
    ]
  ]

  dial_loop-EndsWith :
      (left i limit : ℕ) (last : Text)
      → limit ≡ suc left + i
      → EndsWith i limit (dial_loop target dial done (suc left) i last)
  dial_loop-EndsWith zero i limit last room = dial_loop-first zero i limit last room (λ e h a. inr (
      inr (
        i,
        e,
        omega arith,
        one_more i limit h (λ j lo hi. absurd (omega arith)),
        a,
        dial_loop_over (suc i) e
            ∙ ap (λ (n : ℕ). err (attempts_failed n target e)) (omega (arith, room)),
      )))
  dial_loop-EndsWith (suc left) i limit last room =
      dial_loop-first (suc left) i limit last room (λ e h a.
        fails_here i limit e (dial_loop target dial done (suc left) (suc i) e) (omega arith) h
          (dial_loop-EndsWith left (suc i) limit e (omega arith)))

  -- With `retries` retries there are `retries + 1` attempts at most. The dialer returns the
  -- connection of the first attempt that gets one, all before it having failed; or the error of the
  -- context, where that is done before an attempt; or, all attempts having failed, the error of the
  -- last, with the number of attempts and the target.
  pub dial_with_retry-EndsWith :
      (retries : ℕ) → EndsWith 0 (suc retries) (dial_with_retry target dial done retries)
  unfolding dial_with_retry
  dial_with_retry-EndsWith retries = dial_loop-EndsWith retries 0 (suc retries) [] (omega arith)

-- The scanner sends every scheme to the core that the automatic core of the program picks.
pub selected_core-engine_for_scheme :
    (scheme : Text) → selected_core scheme ≡ engine_for_scheme scheme
unfolding selected_core engine_for_scheme eq_text
selected_core-engine_for_scheme scheme = elim (Bool-cases (eq_text scheme (bytes "hysteria2"))) [
  | inl e ↦ by_name (bytes "hysteria2") e refl
  | inr e ↦ elim (Bool-cases (eq_text scheme (bytes "hy2"))) [
    | inl f ↦ by_name (bytes "hy2") f refl
    | inr f ↦ ground arith
  ]
]
  where
    by_name :
        (name : Text)
        → eq_text scheme name ≡ true
        → selected_core name ≡ engine_for_scheme name
        → selected_core scheme ≡ engine_for_scheme scheme
    by_name name e h =
        subst (λ (s : Text). selected_core s ≡ engine_for_scheme s)
          (sym ((eq_text_iff scheme name).0 e)) h
