-- ===== src/Examiner/Retry.antt =====
-- pkg/http/examiner.go: `ExamineConfigWithRetries`. The runs are given by their numbers, the first
-- being run 0; `done i` is whether the context is done before the i-th retry.
use xray_knife.Prelude.{
  ℕ, zero, suc, ◌+◌, ◌≤◌, ◌<◌, ◌≡◌, refl, Bool, true, false, not, ◌&&◌, ◌||◌, Option, arith,
  if◌then◌else◌, inl, inr, ◌⊎◌, ◌==◌,
}
use xray_knife.Prelude.Int.{ltb_ℤ, is_neg}
use xray_knife.Text.{Text}
use xray_knife.Core.{Core}
use xray_knife.Examiner.Types.{is_passed, Result, Examiner, Environment}
use xray_knife.Examiner.Run.{examine_config}

-- Whether a retry takes the place of the best result so far.
improves : {P : Type 0} → Result P → Result P → Bool
improves best res =
    is_passed res.status
    && (not (is_passed best.status) || (not (is_neg res.delay) && ltb_ℤ res.delay best.delay))

module _ {P : Type 0} (run : ℕ → Result P × Option Text) (done : ℕ → Bool) where
  -- The loop, with `n` retries to go; the next run is run `suc i`.
  unfoldable pub retry_loop : ℕ → ℕ → Result P × Option Text → Result P × Option Text
  unfolding improves is_passed
  retry_loop zero i best = best
  retry_loop (suc n) i best =
      let next = run (suc i) in
      let kept = if improves best.0 next.0 then next else best in
      let rest = retry_loop n (suc i) kept in
      if done i then best else if is_passed kept.0.status then kept else rest

  unfoldable pub with_retries : ℕ → Result P × Option Text
  unfolding retry_loop
  with_retries retries =
      if retries == 0 || is_passed (run 0).0.status then run 0 else retry_loop retries 0 (run 0)

unfoldable pub examine_config_with_retries :
    {P : Type 0}
    → Core P
    → (ℕ → Environment)
    → (ℕ → Bool)
    → Examiner
    → Text
    → Result P × Option Text
unfolding with_retries
examine_config_with_retries c envs done e link =
    with_retries (λ i. examine_config c (envs i) e link) done e.retries

module _ {P : Type 0} (run : ℕ → Result P × Option Text) (done : ℕ → Bool) where
  retry_loop_fails :
      (n i : ℕ) (best : Result P × Option Text)
      → is_passed best.0.status ≡ false
      → ((j : ℕ) → i < j → j ≤ i + n → is_passed (run j).0.status ≡ false)
      → retry_loop run done n i best ≡ best
  unfolding retry_loop
  retry_loop_fails zero i best b h = refl
  retry_loop_fails (suc n) i best b h =
      let next = h (suc i) (omega arith) (omega arith) in
      let ih = retry_loop_fails n (suc i) best b (λ j l u. h j (omega arith) (omega arith)) in
      ground (arith, next, ih)

  retry_loop_first :
      (n i j : ℕ) (best : Result P × Option Text)
      → is_passed best.0.status ≡ false
      → i < j
      → j ≤ i + n
      → ((k : ℕ) → i ≤ k → k < j → done k ≡ false)
      → ((k : ℕ) → i < k → k < j → is_passed (run k).0.status ≡ false)
      → is_passed (run j).0.status ≡ true
      → retry_loop run done n i best ≡ run j
  unfolding retry_loop
  retry_loop_first zero i j best b l u d h p = absurd (omega arith)
  retry_loop_first (suc n) i j best b l u d h p =
      let on = d i (omega arith) l in
      elim (split (omega arith)) [
        | inl e ↦
            let p' : is_passed (run (suc i)).0.status ≡ true = rw e p in
            rw (← e) (ground (arith, on, p'))
        | inr lt ↦
            let miss = h (suc i) (omega arith) lt in
            let ih =
              retry_loop_first n (suc i) j best b lt (omega arith) (λ k a c. d k (omega arith) c)
                (λ k a c. h k (omega arith) c) p in
            ground (arith, on, miss, ih)
      ]
    where
      split : suc i ≤ j → (suc i ≡ j) ⊎ (suc i < j)
      split q = grind arith

-- Whatever the runs return. If none of the runs up to the number of retries passes, the result is
-- that of the first run. If run `j` is the first that passes and the context is not done before
-- it, the result is that of run `j`.
pub with_retries_first_passed :
    {P : Type 0} (run : ℕ → Result P × Option Text) (done : ℕ → Bool) (retries : ℕ)
    → (((k : ℕ) → k ≤ retries → is_passed (run k).0.status ≡ false)
        → with_retries run done retries ≡ run 0)
      × ((j : ℕ)
          → j ≤ retries
          → ((k : ℕ) → k < j → (done k ≡ false) × (is_passed (run k).0.status ≡ false))
          → is_passed (run j).0.status ≡ true
          → with_retries run done retries ≡ run j)
unfolding with_retries
with_retries_first_passed run done retries = (
  λ h.
      let loop =
        retry_loop_fails run done retries 0 (run 0) (h 0 (omega arith))
          (λ j l u. h j (omega arith)) in
      ground (arith, loop),
  later,
)
  where
    later :
        (j : ℕ)
        → j ≤ retries
        → ((k : ℕ) → k < j → (done k ≡ false) × (is_passed (run k).0.status ≡ false))
        → is_passed (run j).0.status ≡ true
        → (if retries == 0 || is_passed (run 0).0.status
            then run 0
            else retry_loop run done retries 0 (run 0))
          ≡ run j
    later zero u h p = ground arith
    later (suc j) u h p =
        let loop =
          retry_loop_first run done retries 0 (suc j) (run 0) (h 0 (omega arith)).1 (omega arith)
            (omega arith) (λ k a b. (h k b).0) (λ k a b. (h k b).1) p in
        ground (arith, loop, (h 0 (omega arith)).1)
