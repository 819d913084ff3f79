-- ===== src/ChainMode/Modes/Served.antt =====
-- The inbound port and the chain that is shown, in every mode that serves a chain.
use mathlib.Core.Path.{subst}
use xray_knife.Prelude.{◌≡◌, refl, sym, ap, ◌⊎◌, inl, inr, true, false, List, [], ◌∷◌, Bool-cases}
use xray_knife.Text.{Text, bytes, eq_text}
use xray_knife.Core.{Fallible, ok, err, Fallible-cases, Core}
use xray_knife.Chain.{select_chain_from_pool, resolve_fixed_chain}
use xray_knife.ChainMode.{
  ChainRotor, Swap, start_chain, ChainWake, cancelled, forced, elapsed, checked, run_chain,
  ChainInput, hops_for,
}
use xray_knife.ChainMode.Modes.{
  ChainSettings, is_fixed_chain, rotation_of, run_still, run_fixed_chain, run_no_rotation,
  run_chain_mode,
}
use xray_knife.ChainMode.Serving.{
  IsServed, WhenServed, start_chain-IsServed, run_chain-IsServed, full_served, exit_served,
}

module _ {P : Type 0} (c : Core P) (pool : List Text) where
  still_served :
      (s : Swap) (hops : List P) (es : List (ChainWake × ChainInput P))
      → WhenServed (run_still c s hops es)
  unfolding run_still
  still_served s hops es = elim (Fallible-cases (start_chain c.get_link (bytes "") s hops)) [
    | inr (e, b) ↦ rw (run_still, b) tt
    | inl (r, b) ↦
        rw (run_still, b)
          (run_chain-IsServed (λ i q. q) (λ i q h. h) es r
            (subst (λ (o : Fallible (ChainRotor P)). WhenServed o) b
              (start_chain-IsServed c.get_link (bytes "") s hops)))
  ]

  none_served :
      (s : ChainSettings) (i : ChainInput P) (es : List (ChainWake × ChainInput P))
      → WhenServed (run_no_rotation c pool s i es)
  unfolding run_no_rotation
  none_served s i es =
      elim (Fallible-cases
        (select_chain_from_pool (i.worlds 0).shuffle c pool (hops_for s.chain_hops))) [
          | inr (e, f) ↦ rw (run_no_rotation, f) tt
          | inl (hops, f) ↦ rw (run_no_rotation, f) (still_served i.swap hops es)
        ]

  fixed_served :
      (scan_lines : Text → List Text) (s : ChainSettings) (i : ChainInput P)
      (es : List (ChainWake × ChainInput P))
      → WhenServed (run_fixed_chain c scan_lines s i es)
  unfolding run_fixed_chain
  fixed_served scan_lines s i es =
      elim (Fallible-cases (resolve_fixed_chain scan_lines c s.chain_links s.chain_file)) [
        | inr (e, f) ↦ rw (run_fixed_chain, f) tt
        | inl (hops, f) ↦ rw (run_fixed_chain, f) (still_served i.swap hops es)
      ]

  mode_served :
      (scan_lines : Text → List Text) (s : ChainSettings) (i : ChainInput P)
      (es : List (ChainWake × ChainInput P))
      → WhenServed (run_chain_mode c scan_lines pool s i es)
  unfolding run_chain_mode
  mode_served scan_lines s i es = elim (Bool-cases (is_fixed_chain s)) [
    | inl t ↦ rw (run_chain_mode, t) (fixed_served scan_lines s i es)
    | inr t ↦ elim (Bool-cases (eq_text (rotation_of s) (bytes "none"))) [
      | inl n ↦ rw (run_chain_mode, t, n) (none_served s i es)
      | inr n ↦ elim (Bool-cases (eq_text (rotation_of s) (bytes "exit"))) [
        | inl x ↦ rw (run_chain_mode, t, n, x) (exit_served c pool s.chain_hops i es)
        | inr x ↦ elim (Bool-cases (eq_text (rotation_of s) (bytes "full"))) [
          | inl f ↦
              rw (run_chain_mode, t, n, x, f)
                (full_served c pool s.chain_hops s.chain_attempts i es)
          | inr f ↦ rw (run_chain_mode, t, n, x, f) tt
        ]
      ]
    ]
  ]

  abbrev WhenShown : Fallible (List P) → Fallible (ChainRotor P) → Type 0
  WhenShown found (err e) = Unit {0}
  WhenShown found (ok r) = found ≡ ok r.hops

  run_still-hops :
      (es : List (ChainWake × ChainInput P)) (r : ChainRotor P)
      → (run_chain (λ (i : ChainInput P) (q : ChainRotor P). q) es r).hops ≡ r.hops
  unfolding run_chain
  run_still-hops [] r = refl
  run_still-hops ((cancelled, i) ∷ es) r = refl
  run_still-hops ((forced, i) ∷ es) r = run_still-hops es r
  run_still-hops ((elapsed, i) ∷ es) r = run_still-hops es r
  run_still-hops ((checked true, i) ∷ es) r = run_still-hops es r
  run_still-hops ((checked false, i) ∷ es) r = run_still-hops es r

  still_shown :
      (s : Swap) (hops : List P) (es : List (ChainWake × ChainInput P))
      → WhenShown (ok hops) (run_still c s hops es)
  unfolding run_still start_chain
  still_shown s hops es = elim (Fallible-cases s.make) [
    | inr (e, m) ↦ rw (run_still, start_chain, m) tt
    | inl (v, m) ↦ elim (Fallible-cases s.start) [
      | inr (e, b) ↦ rw (run_still, start_chain, m, b) tt
      | inl (u, b) ↦ rw (run_still, start_chain, m, b) (ap ok (sym (run_still-hops es _)))
    ]
  ]

  fixed_shown :
      (scan_lines : Text → List Text) (s : ChainSettings) (i : ChainInput P)
      (es : List (ChainWake × ChainInput P))
      → WhenShown
          (resolve_fixed_chain scan_lines c s.chain_links s.chain_file)
          (run_fixed_chain c scan_lines s i es)
  unfolding run_fixed_chain
  fixed_shown scan_lines s i es =
      elim (Fallible-cases (resolve_fixed_chain scan_lines c s.chain_links s.chain_file)) [
        | inr (e, f) ↦ rw (run_fixed_chain, f) tt
        | inl (hops, f) ↦ rw (run_fixed_chain, f) (still_shown i.swap hops es)
      ]

  -- A service in chain mode that starts, whatever wakes it, in any order, and whatever the searches
  -- and the new instances answer: no event opens the inbound port while it is open or closes it
  -- while it is closed, it is open at the end exactly where there is an instance, and the chain in
  -- the details is the chain of the loop, which is the fixed chain of the configuration where it has
  -- one.
  pub run_chain_mode-IsServed :
      (scan_lines : Text → List Text) (s : ChainSettings) (i : ChainInput P)
      (es : List (ChainWake × ChainInput P)) (r : ChainRotor P)
      → run_chain_mode c scan_lines pool s i es ≡ ok r
      → IsServed r
        × ((is_fixed_chain s ≡ false)
            ⊎ (resolve_fixed_chain scan_lines c s.chain_links s.chain_file ≡ ok r.hops))
  unfolding run_chain_mode
  run_chain_mode-IsServed scan_lines s i es r h = (
    subst (λ (o : Fallible (ChainRotor P)). WhenServed o) h (mode_served scan_lines s i es),
    elim (Bool-cases (is_fixed_chain s)) [
      | inr t ↦ inl t
      | inl t ↦ inr (
          subst
            (λ (o : Fallible (ChainRotor P)).
              WhenShown (resolve_fixed_chain scan_lines c s.chain_links s.chain_file) o)
            (rw (run_chain_mode, t) at h) (fixed_shown scan_lines s i es))
    ],
  )
