-- ===== src/ChainMode.antt =====
-- pkg/proxy/service.go: the modes that serve a chain of hops, fixed, or rotated as a whole or at its
-- exit. Building and starting an instance and testing a chain are answers of a world.
pub mod Search
pub mod Modes
pub mod Serving
use xray_knife.Prelude.{
  ℕ, zero, suc, ◌+◌, Bool, true, false, ◌||◌, not, List, [], ◌∷◌, ◌++◌, Option, none, some,
  if◌then◌else◌, ltb, ◌==◌, take, length, ◌-◌,
}
use xray_knife.Text.{Text, bytes, is_empty, eq_text, decimal}
use xray_knife.Core.{Fallible, ok, err, Core}
use xray_knife.Chain.{select_chain_from_pool, select_exit_hop_from_pool}

-- What one attempt at a chain meets: the shuffle, the error of a context that is done before it,
-- the client over the chain and the test through it.
pub record ChainWorld (P : Type 0) : Type 0 where
  pub shuffle : List Text → List Text
  pub done : Option Text
  pub client : List P → Fallible (Unit {0})
  pub passes : List P → Bool

abbrev pub default_chain_attempts : ℕ
default_chain_attempts = 5

abbrev pub hops_for : ℕ → ℕ
hops_for n = if ltb n 2 then 2 else n

abbrev pub attempts_for : ℕ → ℕ
attempts_for n = if n == 0 then default_chain_attempts else n

module _ {P : Type 0} (c : Core P) (pool : List Text) where
  unfoldable pub try_chain : ℕ → ChainWorld P → Option (List P)
  try_chain num_hops w = elim (select_chain_from_pool w.shuffle c pool num_hops) [
    | err e ↦ none
    | ok hops ↦ elim (w.client hops) [
      | err e ↦ none
      | ok _ ↦ if w.passes hops then some hops else none
    ]
  ]

  -- `left` attempts remain, the next one is attempt `i`.
  unfoldable pub find_loop : ℕ → (ℕ → ChainWorld P) → Text → ℕ → ℕ → Fallible (List P)
  unfolding try_chain
  find_loop num_hops w failure zero i = err failure
  find_loop num_hops w failure (suc left) i = elim (w i).done [
    | some e ↦ err e
    | none ↦ elim (try_chain num_hops (w i)) [
      | some hops ↦ ok hops
      | none ↦ find_loop num_hops w failure left (suc i)
    ]
  ]

  unfoldable pub find_working_chain : ℕ → ℕ → (ℕ → ChainWorld P) → Fallible (List P)
  unfolding find_loop
  find_working_chain num_hops chain_attempts w =
      let attempts = attempts_for chain_attempts in
      find_loop num_hops w
        (bytes "could not find a working chain after " ++ decimal attempts ++ bytes " attempts")
        attempts 0

  -- The chain with a new exit, tested from end to end.
  unfoldable pub find_exit_chain : List P → Text → ChainWorld P → Fallible (List P)
  find_exit_chain fixed_hops last_exit w =
      elim (select_exit_hop_from_pool w.shuffle c pool fixed_hops last_exit) [
        | err e ↦ err e
        | ok hops ↦ elim (w.client hops) [
          | err e ↦ err e
          | ok _ ↦
              if w.passes hops then ok hops else err (bytes "Candidate chain failed health check")
        ]
      ]

pub data ChainStatus : Type 0 where
  idle stalled : ChainStatus

-- What happens to the one inbound port.
pub data ListenerEvent : Type 0 where
  opened closed : ListenerEvent

-- `hops` is the chain of the loop, `shown` the one in the details of the service, `last_exit` the
-- link that the exit rotation moves away from, and `listening` whether there is an instance.
pub record ChainRotor (P : Type 0) : Type 0 where
  pub hops : List P
  pub shown : List P
  pub last_exit : Text
  pub listening : Bool
  pub status : ChainStatus
  pub events : List ListenerEvent

-- What building and starting the new instance answer.
pub record Swap : Type 0 where
  pub make : Fallible (Unit {0})
  pub start : Fallible (Unit {0})

module _ {P : Type 0} (get_link : P → Text) where
  abbrev pub exit_link : List P → Text
  exit_link [] = []
  exit_link (hop ∷ []) = get_link hop
  exit_link (hop ∷ next ∷ hops) = exit_link (next ∷ hops)

  abbrev pub stall : ChainRotor P → ChainRotor P
  stall r = record r { status = stalled }

  -- The new instance is built, the old one closed, and then the new one started.
  unfoldable pub switch_chain : Swap → List P → ChainRotor P → ChainRotor P
  switch_chain s hops r =
      let freed = if r.listening then r.events ++ (closed ∷ []) else r.events in
      elim s.make [
        | err e ↦ stall r
        | ok _ ↦ elim s.start [
          | err e ↦ record r { listening = false; status = stalled; events = freed }
          | ok _ ↦ record {
            hops = hops;
            shown = hops;
            last_exit = exit_link hops;
            listening = true;
            status = idle;
            events = freed ++ (opened ∷ []);
          }
        ]
      ]

  unfoldable pub rotate_with : Swap → Fallible (List P) → ChainRotor P → ChainRotor P
  unfolding switch_chain
  rotate_with s found r = elim found [ err e ↦ stall r | ok hops ↦ switch_chain s hops r ]

  -- The start of the first instance, whose failure ends the mode; `which` is a word of its messages.
  unfoldable pub start_chain : Text → Swap → List P → Fallible (ChainRotor P)
  start_chain which s hops = elim s.make [
    | err e ↦ err (bytes "failed to create " ++ which ++ bytes "chained instance: " ++ e)
    | ok _ ↦ elim s.start [
      | err e ↦ err (bytes "failed to start " ++ which ++ bytes "chained instance: " ++ e)
      | ok _ ↦ ok (record {
        hops = hops;
        shown = hops;
        last_exit = exit_link hops;
        listening = true;
        status = idle;
        events = opened ∷ [];
      })
    ]
  ]

-- What wakes the loop: the context, a demand, the timer or a health check with its answer.
pub data ChainWake : Type 0 where
  cancelled forced elapsed : ChainWake
  checked : Bool → ChainWake

-- The loop of either rotation, over what wakes it; `rotate` is the rotation that a wake leads to.
-- When the context is done, the instance that is left is closed.
unfoldable pub run_chain :
    {P I : Type 0}
    → (I → ChainRotor P → ChainRotor P)
    → List (ChainWake × I)
    → ChainRotor P
    → ChainRotor P
run_chain rotate [] r = r
run_chain rotate ((cancelled, i) ∷ es) r = record r {
  listening = false;
  events = if r.listening then r.events ++ (closed ∷ []) else r.events;
}
run_chain rotate ((forced, i) ∷ es) r = run_chain rotate es (rotate i r)
run_chain rotate ((elapsed, i) ∷ es) r = run_chain rotate es (rotate i r)
run_chain rotate ((checked healthy, i) ∷ es) r =
    run_chain rotate es (if healthy then r else rotate i r)

-- What a rotation meets: the worlds of its attempts, and the answers to its new instance.
pub record ChainInput (P : Type 0) : Type 0 where
  pub worlds : ℕ → ChainWorld P
  pub swap : Swap

module _ {P : Type 0} (c : Core P) (pool : List Text) where
  unfoldable pub rotate_full : ℕ → ℕ → ChainInput P → ChainRotor P → ChainRotor P
  unfolding find_working_chain rotate_with
  rotate_full num_hops chain_attempts i r =
      rotate_with c.get_link i.swap (find_working_chain c pool num_hops chain_attempts i.worlds) r

  unfoldable pub rotate_exit : List P → ChainInput P → ChainRotor P → ChainRotor P
  unfolding find_exit_chain rotate_with
  rotate_exit fixed_hops i r =
      rotate_with c.get_link i.swap (find_exit_chain c pool fixed_hops r.last_exit (i.worlds 0)) r

  unfoldable pub run_full_rotation :
      ℕ → ℕ → ChainInput P → List (ChainWake × ChainInput P) → Fallible (ChainRotor P)
  unfolding start_chain run_chain rotate_full
  run_full_rotation chain_hops chain_attempts i es =
      let n = hops_for chain_hops in
      elim (find_working_chain c pool n chain_attempts i.worlds) [
        | err e ↦ err (bytes "failed to find initial working chain: " ++ e)
        | ok hops ↦ elim (start_chain c.get_link (bytes "initial ") i.swap hops) [
          | err e ↦ err e
          | ok r ↦ ok (run_chain (rotate_full n chain_attempts) es r)
        ]
      ]

  -- The first chain of the exit rotation, tested once.
  unfoldable pub first_chain : ℕ → ChainWorld P → Fallible (List P)
  first_chain num_hops w = elim (select_chain_from_pool w.shuffle c pool num_hops) [
    | err e ↦ err (bytes "failed to select initial chain from pool: " ++ e)
    | ok hops ↦ elim (w.client hops) [
      | err e ↦ err (bytes "failed to build initial chain for testing: " ++ e)
      | ok _ ↦ if w.passes hops then ok hops else err (bytes "initial chain failed health check")
    ]
  ]

  -- All hops but the last stay for the whole run.
  unfoldable pub run_exit_rotation :
      ℕ → ChainInput P → List (ChainWake × ChainInput P) → Fallible (ChainRotor P)
  unfolding start_chain run_chain rotate_exit first_chain
  run_exit_rotation chain_hops i es = elim (first_chain (hops_for chain_hops) (i.worlds 0)) [
    | err e ↦ err e
    | ok hops ↦ elim (start_chain c.get_link (bytes "initial ") i.swap hops) [
      | err e ↦ err e
      | ok r ↦ ok (run_chain (rotate_exit (take (length hops - 1) hops)) es r)
    ]
  ]
