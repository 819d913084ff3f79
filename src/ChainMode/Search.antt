-- ===== src/ChainMode/Search.antt =====
-- Which chain a search over the pool returns.
use mathlib.Core.Path.{subst}
use xray_knife.Prelude.{
  ℕ, zero, suc, ◌+◌, ◌≤◌, ◌<◌, ◌≡◌, refl, inl, inr, List, ◌++◌, none, some, arith, ◌==◌, ◌⊎◌,
  ==_iff, Bool-cases, Option-cases,
}
use xray_knife.Text.{Text, bytes, decimal}
use xray_knife.Core.{Fallible, ok, err, Core}
use xray_knife.ChainMode.{ChainWorld, try_chain, find_loop, attempts_for, find_working_chain}

module _ {P : Type 0} (c : Core P) (pool : List Text) (num_hops : ℕ) (w : ℕ → ChainWorld P) where
  -- Attempt `j` was made, with no chain that passed.
  abbrev pub FoundNone : ℕ → Type 0
  FoundNone j = ((w j).done ≡ none) × (try_chain c pool num_hops (w j) ≡ none)

  abbrev pub NoneBetween : ℕ → ℕ → Type 0
  NoneBetween i n = (j : ℕ) → i ≤ j → j < n → FoundNone j

  -- How the attempts from `i` up to `limit` end: with the first chain that passes, with the context
  -- done before one, or with all of them made.
  abbrev pub SearchEnds : ℕ → ℕ → Text → Fallible (List P) → Type 0
  SearchEnds i limit failure out =
      ((n : ℕ) × (hops : List P) × (n < limit)
        × NoneBetween i n
        × ((w n).done ≡ none)
        × (try_chain c pool num_hops (w n) ≡ some hops)
        × (out ≡ ok hops))
      ⊎ (((n : ℕ) × (e : Text) × (n < limit)
            × NoneBetween i n
            × ((w n).done ≡ some e)
            × (out ≡ err e))
          ⊎ (NoneBetween i limit × (out ≡ err failure)))

  none_yet : (i : ℕ) → NoneBetween i i
  none_yet i j lo hi = absurd (omega arith)

  one_more : (i n : ℕ) → FoundNone i → NoneBetween (suc i) n → NoneBetween i n
  one_more i n h rest j lo hi = elim (Bool-cases (i == j)) [
    | inl e ↦ subst (λ (k : ℕ). FoundNone k) ((==_iff i j).0 e) h
    | inr e ↦ rest j (ground arith) hi
  ]

  passed_over :
      (i limit : ℕ) (failure : Text) (out : Fallible (List P))
      → FoundNone i
      → SearchEnds (suc i) limit failure out
      → SearchEnds i limit failure out
  passed_over i limit failure out h s = elim s [
    | inl (n, hops, l, f, d, a, o) ↦ inl (n, hops, l, one_more i n h f, d, a, o)
    | inr v ↦ elim v [
      | inl (n, e, l, f, d, o) ↦ inr (inl (n, e, l, one_more i n h f, d, o))
      | inr (f, o) ↦ inr (inr (one_more i limit h f, o))
    ]
  ]

  find_loop_ends :
      (failure : Text) (left i limit : ℕ)
      → limit ≡ left + i
      → SearchEnds i limit failure (find_loop c pool num_hops w failure left i)
  unfolding find_loop
  find_loop_ends failure zero i limit room = inr (inr (λ j lo hi. absurd (omega arith), refl))
  find_loop_ends failure (suc left) i limit room = elim (Option-cases (w i).done) [
    | inr (e, d) ↦ inr (inl (i, e, omega arith, none_yet i, d, rw (find_loop, d) refl))
    | inl d ↦ elim (Option-cases (try_chain c pool num_hops (w i))) [
      | inr (hops, t) ↦ inl (i, hops, omega arith, none_yet i, d, t, rw (find_loop, d, t) refl)
      | inl t ↦
          rw (find_loop, d, t)
            (passed_over i limit failure (find_loop c pool num_hops w failure left (suc i)) (d, t)
              (find_loop_ends failure left (suc i) limit (omega arith)))
    ]
  ]

  -- The search makes the attempts of the configuration, or five where it names none. It returns the
  -- chain of the first attempt that selects one, builds a client over it and passes the test through
  -- it, all attempts before having failed; or the error of the context, where that is done before an
  -- attempt; or, all attempts having failed, the error that names their number.
  pub find_working_chain_lem :
      (chain_attempts : ℕ)
      → SearchEnds 0
          (attempts_for chain_attempts)
          (bytes "could not find a working chain after "
            ++ decimal (attempts_for chain_attempts)
            ++ bytes " attempts")
          (find_working_chain c pool num_hops chain_attempts w)
  unfolding find_working_chain
  find_working_chain_lem chain_attempts =
      find_loop_ends
        (bytes "could not find a working chain after "
          ++ decimal (attempts_for chain_attempts)
          ++ bytes " attempts")
        (attempts_for chain_attempts) 0 (attempts_for chain_attempts) (omega arith)
