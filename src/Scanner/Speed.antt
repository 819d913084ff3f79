-- ===== src/Scanner/Speed.antt =====
-- The speed phase of the scanner: which results are tested.
use xray_knife.Prelude.{
  ℕ, zero, suc, ◌≤◌, ◌≡◌, ap, Bool, true, false, ◌||◌, not, List, [], ◌∷◌, none, some,
  if◌then◌else◌, ltb, length, take, drop, keep, All, In, In-keep, In-take, All-In, arith, inl, inr,
  ◌⊎◌, length-take-le, length-keep-le,
}
use xray_knife.Prelude.Reordered.{IsReordered, IsReordered-In, IsReordered-sym, In-keep_intro}
use xray_knife.Scanner.{Speeds, ScanResult}

module _ {S : Type 0} where
  unfoldable pub succeeded : ScanResult S → Bool
  succeeded r = elim r.error [ none ↦ true | some e ↦ false ]

  -- `alreadyTested`
  unfoldable pub already_tested : Speeds S → ScanResult S → Bool
  already_tested sp r = sp.exceeds r.down_speed sp.zero_speed || sp.exceeds r.up_speed sp.zero_speed

  unfoldable pub top_results :
      (List (ScanResult S) → List (ScanResult S)) → ℕ → List (ScanResult S) → List (ScanResult S)
  unfolding succeeded
  top_results sort top results =
      let successes = sort (keep succeeded results) in
      let n = if ltb (length successes) top then length successes else top in take n successes

  -- The results that `runSpeedTest` submits.
  unfoldable pub speed_targets :
      Speeds S
      → (List (ScanResult S) → List (ScanResult S))
      → ℕ
      → List (ScanResult S)
      → List (ScanResult S)
  unfolding top_results already_tested
  speed_targets sp sort top results =
      keep (λ r. not (already_tested sp r)) (top_results sort top results)

  -- No result after another one has a smaller latency.
  abbrev pub IsSorted : List (ScanResult S) → Type 0
  IsSorted [] = Unit
  IsSorted (r ∷ rs) = All (λ s. r.latency ≤ s.latency) rs × IsSorted rs

  split_In :
      (r : ScanResult S) (n : ℕ) (rs : List (ScanResult S))
      → In r rs
      → In r (take n rs) ⊎ In r (drop n rs)
  split_In r zero rs i = inr i
  split_In r (suc n) [] i = elim i [ ]
  split_In r (suc n) (s ∷ rs) (inl e) = inl (inl e)
  split_In r (suc n) (s ∷ rs) (inr i) = elim (split_In r n rs i) [
    | inl j ↦ inl (inr j)
    | inr j ↦ inr j
  ]

  In-drop : (r : ScanResult S) (n : ℕ) (rs : List (ScanResult S)) → In r (drop n rs) → In r rs
  In-drop r zero rs i = i
  In-drop r (suc n) [] i = elim i [ ]
  In-drop r (suc n) (s ∷ rs) i = inr (In-drop r n rs i)

  take-drop-IsSorted :
      (n : ℕ) (rs : List (ScanResult S)) (r s : ScanResult S)
      → IsSorted rs
      → In r (take n rs)
      → In s (drop n rs)
      → r.latency ≤ s.latency
  take-drop-IsSorted zero rs r s h i j = elim i [ ]
  take-drop-IsSorted (suc n) [] r s h i j = elim i [ ]
  take-drop-IsSorted (suc n) (t ∷ rs) r s h (inl e) j = omega (
    arith,
    ap (λ (u : ScanResult S). u.latency) e,
    All-In (λ u. t.latency ≤ u.latency) rs (h.0) (In-drop s n rs j),
  )
  take-drop-IsSorted (suc n) (t ∷ rs) r s h (inr i) j = take-drop-IsSorted n rs r s (h.1) i j

  -- Where the sort puts the results in order of latency, the results submitted to the speed test
  -- are results of the scan without an error that were not measured before, at most as many as are
  -- asked for; and a result without an error that is not among the best has no smaller latency
  -- than any that is submitted.
  pub speed_targets_best :
      (sp : Speeds S) (sort : List (ScanResult S) → List (ScanResult S))
      → ((rs : List (ScanResult S)) → IsReordered (sort rs) rs)
      → ((rs : List (ScanResult S)) → IsSorted (sort rs))
      → (top : ℕ) (results : List (ScanResult S))
      → let best = top_results sort top results in
        let tested = speed_targets sp sort top results in
        (length tested ≤ top)
        × ((r : ScanResult S)
            → In r tested
            → In r results × (succeeded r ≡ true) × (already_tested sp r ≡ false))
        × ((r s : ScanResult S)
            → In r tested
            → In s results
            → succeeded s ≡ true
            → In s best ⊎ (r.latency ≤ s.latency))
  unfolding top_results speed_targets
  speed_targets_best sp sort reorders sorts top results =
      let good = keep succeeded results in
      let fresh : ScanResult S → Bool = λ r. not (already_tested sp r) in
      let best = top_results sort top results in
      let n = if ltb (length (sort good)) top then length (sort good) else top in
      (
        ground (arith, length-keep-le fresh best, length-take-le n (sort good)),
        λ r i.
            let (j, e) = In-keep fresh r best i in
            let (k, f) =
              In-keep succeeded r results
                (IsReordered-In r (reorders good) (In-take r n (sort good) j)) in
            (k, f, ground arith),
        λ r s i k f.
            let (j, e) = In-keep fresh r best i in
            elim (split_In s n (sort good) (
              IsReordered-In s (IsReordered-sym (reorders good))
                (In-keep_intro succeeded s results k f))) [
                  | inl h ↦ inl h
                  | inr h ↦ inr (take-drop-IsSorted n (sort good) r s (sorts good) j h)
                ],
      )
