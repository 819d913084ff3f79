-- ===== src/Scanner/Finish.antt =====
-- The end of `Run`: the results of this scan and of an earlier one in one list, and its order.
use xray_knife.Prelude.{
  ◌≡◌, refl, ap, ◌∙◌, inl, inr, Bool, true, false, not, List, [], ◌∷◌, map, Option, none, some,
  if◌then◌else◌, ltb, ◌==◌, arith, Bool-cases, Option-cases,
}
use xray_knife.Text.{Text, eq_text}
use xray_knife.Text.Equality.{eq_text_iff}
use xray_knife.Dict.{lookup, insert, lookup-insert}
use xray_knife.Scanner.{Speeds, ScanResult, ScannerConfig, prepare_for_marshal, coalesce}

-- Go's `<` on strings, byte by byte.
unfoldable pub ltb_text : Text → Text → Bool
ltb_text [] [] = false
ltb_text [] (d ∷ t) = true
ltb_text (c ∷ s) [] = false
ltb_text (c ∷ s) (d ∷ t) = let rest = ltb_text s t in if c == d then rest else ltb c d

module _ {S : Type 0} where
  -- Earlier results come in where this scan has none of their address.
  unfoldable pub add_initial :
      List (ScanResult S) → List (Text × ScanResult S) → List (Text × ScanResult S)
  unfolding lookup insert
  add_initial [] found = found
  add_initial (r ∷ initial) found = elim (lookup r.ip found) [
    | some s ↦ add_initial initial found
    | none ↦ add_initial initial (insert r.ip r found)
  ]

  unfoldable pub combined_results :
      ScannerConfig → List (ScanResult S) → List (Text × ScanResult S) → List (Text × ScanResult S)
  unfolding add_initial
  combined_results c initial found = if c.resume then add_initial initial found else found

  -- The comparison of the final sort.
  unfoldable pub comes_before : Speeds S → Bool → ScanResult S → ScanResult S → Bool
  unfolding ltb_text
  comes_before sp speedtest r s = elim r.error [
    | some e ↦ elim s.error [ none ↦ false | some f ↦ ltb_text r.ip s.ip ]
    | none ↦ elim s.error [
      | some f ↦ true
      | none ↦
          if speedtest
          then (if not (r.latency == s.latency)
              then ltb r.latency s.latency
              else sp.exceeds r.down_speed s.down_speed)
          else ltb r.latency s.latency
    ]
  ]

  -- What `Run` writes to the file.
  unfoldable pub final_results :
      ScannerConfig
      → (List (ScanResult S) → List (ScanResult S))
      → List (ScanResult S)
      → List (Text × ScanResult S)
      → List (ScanResult S)
  unfolding combined_results prepare_for_marshal
  final_results c sort initial found =
      sort (map (λ entry. prepare_for_marshal (entry.1)) (combined_results c initial found))

  unfoldable pub first_of : Text → List (ScanResult S) → Option (ScanResult S)
  first_of ip [] = none
  first_of ip (r ∷ rs) = if eq_text r.ip ip then some r else first_of ip rs

  lookup_same :
      (ip key : Text) (found : List (Text × ScanResult S))
      → eq_text key ip ≡ true
      → lookup key found ≡ lookup ip found
  lookup_same ip key found h = ap (λ (k : Text). lookup k found) ((eq_text_iff key ip).0 h)

  lookup-add_initial :
      (ip : Text) (initial : List (ScanResult S)) (found : List (Text × ScanResult S))
      → lookup ip (add_initial initial found) ≡ coalesce (lookup ip found) (first_of ip initial)
  unfolding add_initial first_of
  lookup-add_initial ip [] found = ground arith
  lookup-add_initial ip (r ∷ initial) found = elim (Option-cases (lookup r.ip found)) [
    | inl e ↦
        rw (add_initial, e)
          (ground (
            arith,
            e,
            lookup-add_initial ip initial (insert r.ip r found),
            lookup-insert r.ip ip r found,
            lookup_same ip r.ip found,
          ))
    | inr (s, e) ↦
        rw (add_initial, e)
          (ground (arith, e, lookup-add_initial ip initial found, lookup_same ip r.ip found))
  ]

  -- In the final results an address has the result of this scan, if it has one, and else, where the
  -- scan resumes, the first of the earlier results for it.
  pub lookup-combined_results :
      (c : ScannerConfig) (ip : Text) (initial : List (ScanResult S))
      (found : List (Text × ScanResult S))
      → lookup ip (combined_results c initial found)
        ≡ coalesce (lookup ip found) (if c.resume then first_of ip initial else none)
  unfolding combined_results
  lookup-combined_results c ip initial found = ground (arith, lookup-add_initial ip initial found)

ltb_text-irreflexive : (s : Text) → ltb_text s s ≡ false
unfolding ltb_text
ltb_text-irreflexive [] = refl
ltb_text-irreflexive (c ∷ s) = ground (arith, ltb_text-irreflexive s)

ltb_text-transitive :
    (s t u : Text) → ltb_text s t ≡ true → ltb_text t u ≡ true → ltb_text s u ≡ true
unfolding ltb_text
ltb_text-transitive [] [] u h k = absurd (ground arith)
ltb_text-transitive [] (d ∷ t) [] h k = absurd (ground arith)
ltb_text-transitive [] (d ∷ t) (e ∷ u) h k = refl
ltb_text-transitive (c ∷ s) [] u h k = absurd (ground arith)
ltb_text-transitive (c ∷ s) (d ∷ t) [] h k = absurd (ground arith)
ltb_text-transitive (c ∷ s) (d ∷ t) (e ∷ u) h k = ground (arith, ltb_text-transitive s t u)

ltb_text-total : (s t : Text) → ltb_text s t ≡ false → ltb_text t s ≡ false → s ≡ t
unfolding ltb_text
ltb_text-total [] [] h k = refl
ltb_text-total [] (d ∷ t) h k = absurd (ground arith)
ltb_text-total (c ∷ s) [] h k = absurd (ground arith)
ltb_text-total (c ∷ s) (d ∷ t) h k = ground (arith, ltb_text-total s t)

ltb_text-separates :
    (s t u : Text) → ltb_text s t ≡ false → ltb_text t u ≡ false → ltb_text s u ≡ false
ltb_text-separates s t u h k = elim (Bool-cases (ltb_text t s)) [
  | inr e ↦ ap (λ (v : Text). ltb_text v u) (ltb_text-total s t h e) ∙ k
  | inl e ↦ ground (arith, ltb_text-transitive t s u e)
]

-- What `>` on floats that are not NaN promises.
pub record IsOrdered {S : Type 0} (exceeds : S → S → Bool) : Type 0 where
  pub irreflexive : (a : S) → exceeds a a ≡ false
  pub transitive : (a b c : S) → exceeds a b ≡ true → exceeds b c ≡ true → exceeds a c ≡ true
  pub separates : (a b c : S) → exceeds a b ≡ false → exceeds b c ≡ false → exceeds a c ≡ false

module _ {S : Type 0} (sp : Speeds S) (speeds : IsOrdered sp.exceeds) (speedtest : Bool) where
  -- The comparison of the final sort, with or without the speed test, is a strict weak order where
  -- speeds are ordered: no result is before itself, being before is transitive, and so is not being
  -- before; a result without an error is before every result with one.
  pub comes_before_lem :
      (r s t : ScanResult S)
      → (comes_before sp speedtest r r ≡ false)
        × ((comes_before sp speedtest r s ≡ true)
            → comes_before sp speedtest s t ≡ true
            → comes_before sp speedtest r t ≡ true)
        × ((comes_before sp speedtest r s ≡ false)
            → comes_before sp speedtest s t ≡ false
            → comes_before sp speedtest r t ≡ false)
        × ((e : Text)
            → r.error ≡ none
            → s.error ≡ some e
            → (comes_before sp speedtest r s ≡ true) × (comes_before sp speedtest s r ≡ false))
  unfolding comes_before
  comes_before_lem r s t = (
    ground (arith, ltb_text-irreflexive r.ip, speeds.irreflexive r.down_speed),
    λ h k. ground (
      arith,
      ltb_text-transitive r.ip s.ip t.ip,
      speeds.transitive r.down_speed s.down_speed t.down_speed,
    ),
    λ h k. ground (
      arith,
      ltb_text-separates r.ip s.ip t.ip,
      speeds.separates r.down_speed s.down_speed t.down_speed,
    ),
    λ e h k. ground arith,
  )
