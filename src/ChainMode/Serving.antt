-- ===== src/ChainMode/Serving.antt =====
-- The one inbound port while chains rotate, and the chain that the details of the service show.
use mathlib.Core.Path.{subst}
use xray_knife.Prelude.{
  ◌≡◌, refl, ◌∙◌, ap, Bool, true, false, List, [], ◌∷◌, ◌++◌, Option, none, some, ℕ, Bool-cases,
  inl, inr, if◌then◌else◌, ◌-◌, take, length,
}
use xray_knife.Text.{Text, bytes}
use xray_knife.Core.{Fallible, ok, err, Fallible-cases, Core}
use xray_knife.ChainMode.{
  ListenerEvent, opened, closed, ChainRotor, Swap, switch_chain, rotate_with, start_chain,
  ChainWake, cancelled, forced, elapsed, checked, run_chain, ChainInput, rotate_full, rotate_exit,
  run_full_rotation, run_exit_rotation, find_working_chain, find_exit_chain, first_chain, hops_for,
}

-- Whether the port is open after some events, or nothing where one of them opens an open port or
-- closes a closed one.
abbrev pub replay : Bool → List ListenerEvent → Option Bool
replay b [] = some b
replay false (opened ∷ es) = replay true es
replay true (closed ∷ es) = replay false es
replay true (opened ∷ es) = none
replay false (closed ∷ es) = none

abbrev then_replay : Option Bool → List ListenerEvent → Option Bool
then_replay none es = none
then_replay (some b) es = replay b es

replay-append :
    (b : Bool) (es fs : List ListenerEvent) → replay b (es ++ fs) ≡ then_replay (replay b es) fs
replay-append b [] fs = refl
replay-append false (opened ∷ es) fs = replay-append true es fs
replay-append true (closed ∷ es) fs = replay-append false es fs
replay-append true (opened ∷ es) fs = refl
replay-append false (closed ∷ es) fs = refl

-- The port was never opened twice and is open where the rotor says so, and the chain that is shown
-- is the chain of the loop.
abbrev pub IsServed : {P : Type 0} → ChainRotor P → Type 0
IsServed r = (replay false r.events ≡ some r.listening) × (r.shown ≡ r.hops)

abbrev pub WhenServed : {P : Type 0} → Fallible (ChainRotor P) → Type 0
WhenServed (err e) = Unit {0}
WhenServed (ok r) = IsServed r

replay-freed :
    {P : Type 0} (r : ChainRotor P)
    → IsServed r
    → replay false (if r.listening then r.events ++ (closed ∷ []) else r.events) ≡ some false
replay-freed r h = elim (Bool-cases r.listening) [
  | inl t ↦ rw (t, replay-append false r.events (closed ∷ []), h.0, t) refl
  | inr t ↦ rw t (h.0 ∙ ap some t)
]

module _ {P : Type 0} (get_link : P → Text) where
  switch_chain-IsServed :
      (s : Swap) (hops : List P) (r : ChainRotor P)
      → IsServed r
      → IsServed (switch_chain get_link s hops r)
  unfolding switch_chain
  switch_chain-IsServed s hops r h = elim (Fallible-cases s.make) [
    | inr (e, m) ↦ rw m h
    | inl (v, m) ↦ elim (Fallible-cases s.start) [
      | inr (e, b) ↦ rw (m, b) (replay-freed r h, h.1)
      | inl (u, b) ↦
          rw (m, b)
            (
              replay-append false (if r.listening then r.events ++ (closed ∷ []) else r.events)
                    (opened ∷ [])
                  ∙ ap (λ (o : Option Bool). then_replay o (opened ∷ [])) (replay-freed r h),
              refl,
            )
    ]
  ]

  rotate_with-IsServed :
      (s : Swap) (found : Fallible (List P)) (r : ChainRotor P)
      → IsServed r
      → IsServed (rotate_with get_link s found r)
  unfolding rotate_with
  rotate_with-IsServed s (err e) r h = h
  rotate_with-IsServed s (ok hops) r h = switch_chain-IsServed s hops r h

  pub start_chain-IsServed :
      (which : Text) (s : Swap) (hops : List P) → WhenServed (start_chain get_link which s hops)
  unfolding start_chain
  start_chain-IsServed which s hops = elim (Fallible-cases s.make) [
    | inr (e, m) ↦ rw m tt
    | inl (v, m) ↦ elim (Fallible-cases s.start) [
      | inr (e, b) ↦ rw (m, b) tt
      | inl (u, b) ↦ rw (m, b) (refl, refl)
    ]
  ]

-- A rotor that is closed at the end keeps its account, whatever wakes the loop before.
pub run_chain-IsServed :
    {P I : Type 0} (rotate : I → ChainRotor P → ChainRotor P)
    → ((i : I) (r : ChainRotor P) → IsServed r → IsServed (rotate i r))
    → (es : List (ChainWake × I)) (r : ChainRotor P) → IsServed r
    → IsServed (run_chain rotate es r)
unfolding run_chain
run_chain-IsServed rotate keeps [] r h = h
run_chain-IsServed rotate keeps ((cancelled, i) ∷ es) r h = (replay-freed r h, h.1)
run_chain-IsServed rotate keeps ((forced, i) ∷ es) r h =
    run_chain-IsServed rotate keeps es (rotate i r) (keeps i r h)
run_chain-IsServed rotate keeps ((elapsed, i) ∷ es) r h =
    run_chain-IsServed rotate keeps es (rotate i r) (keeps i r h)
run_chain-IsServed rotate keeps ((checked true, i) ∷ es) r h =
    run_chain-IsServed rotate keeps es r h
run_chain-IsServed rotate keeps ((checked false, i) ∷ es) r h =
    run_chain-IsServed rotate keeps es (rotate i r) (keeps i r h)

module _ {P : Type 0} (c : Core P) (pool : List Text) where
  pub full_served :
      (chain_hops chain_attempts : ℕ) (i : ChainInput P) (es : List (ChainWake × ChainInput P))
      → WhenServed (run_full_rotation c pool chain_hops chain_attempts i es)
  unfolding run_full_rotation rotate_full
  full_served chain_hops chain_attempts i es =
      let n = hops_for chain_hops in
      elim (Fallible-cases (find_working_chain c pool n chain_attempts i.worlds)) [
        | inr (e, f) ↦ rw (run_full_rotation, f) tt
        | inl (hops, f) ↦
            elim (Fallible-cases (start_chain c.get_link (bytes "initial ") i.swap hops)) [
              | inr (e, b) ↦ rw (run_full_rotation, f, b) tt
              | inl (r, b) ↦
                  rw (run_full_rotation, f, b)
                    (run_chain-IsServed (rotate_full c pool n chain_attempts)
                      (λ j q h.
                        rotate_with-IsServed c.get_link j.swap
                          (find_working_chain c pool n chain_attempts j.worlds) q h)
                      es r
                      (subst (λ (o : Fallible (ChainRotor P)). WhenServed o) b
                        (start_chain-IsServed c.get_link (bytes "initial ") i.swap hops)))
            ]
      ]

  pub exit_served :
      (chain_hops : ℕ) (i : ChainInput P) (es : List (ChainWake × ChainInput P))
      → WhenServed (run_exit_rotation c pool chain_hops i es)
  unfolding run_exit_rotation rotate_exit
  exit_served chain_hops i es =
      elim (Fallible-cases (first_chain c pool (hops_for chain_hops) (i.worlds 0))) [
        | inr (e, f) ↦ rw (run_exit_rotation, f) tt
        | inl (hops, f) ↦
            elim (Fallible-cases (start_chain c.get_link (bytes "initial ") i.swap hops)) [
              | inr (e, b) ↦ rw (run_exit_rotation, f, b) tt
              | inl (r, b) ↦
                  let kept = take (length hops - 1) hops in
                  rw (run_exit_rotation, f, b)
                    (run_chain-IsServed (rotate_exit c pool kept)
                      (λ j q h.
                        rotate_with-IsServed c.get_link j.swap
                          (find_exit_chain c pool kept q.last_exit (j.worlds 0)) q h)
                      es r
                      (subst (λ (o : Fallible (ChainRotor P)). WhenServed o) b
                        (start_chain-IsServed c.get_link (bytes "initial ") i.swap hops)))
            ]
      ]
