-- ===== src/Rotation/Steady.antt =====
-- What holds of the running service between two rounds, whatever happens to it.
use Prim.Native.Nat.{pred}
use xray_knife.Prelude.{
  ℕ, zero, suc, ◌<◌, ◌≡◌, ◌≢◌, refl, ap, ◌∙◌, Bool, true, false, List, [], ◌∷◌, none, some, arith,
  inl, inr, ◌⊎◌, Option-cases,
}
use xray_knife.Rotation.Blacklist.{Settings, record_strike}
use xray_knife.Rotation.Candidates.{World, Attempt, find_and_start_working_config}
use xray_knife.Rotation.Loop.{
  idle, rotating, stalled, Timing, Rotor, Wake, done, forced, elapsed, health, Decision, stop, wait,
  rotate, health_threshold, schedule, on_wake, adopt, do_rotate, start_rotation, Event, after_wake,
  step, run_rotation,
}

-- Between two rounds the service is idle or stalled; the counter of failed health checks is below
-- its threshold; the instance that listens is the one last chosen; an idle service has one.
pub record IsSteady (t : Timing) (r : Rotor) : Type 0 where
  pub settled : (r.status ≡ idle) ⊎ (r.status ≡ stalled)
  pub healthy : r.health_fails < health_threshold t
  pub same : (r.current ≡ none) ⊎ (r.current ≡ some r.last_used)
  pub shown : r.active_outbound ≡ some r.last_used
  pub serving : r.status ≡ idle → r.current ≡ some r.last_used

health_threshold-pos : (t : Timing) → 0 < health_threshold t
unfolding health_threshold
health_threshold-pos t = ground arith

on_wake-IsSteady :
    (t : Timing) (s : Settings) (now : ℕ) (w : Wake) (r : Rotor)
    → IsSteady t r
    → IsSteady t (on_wake t s now w r).0
unfolding on_wake
on_wake-IsSteady t s now done r h = h
on_wake-IsSteady t s now forced r h = h
on_wake-IsSteady t s now elapsed r h = h
on_wake-IsSteady t s now (health true) r h = ground (arith, health_threshold-pos t)
on_wake-IsSteady t s now (health false) r h = ground (arith, health_threshold-pos t)

-- The status is set anew by what follows the search.
adopt-IsSteady :
    {P : Type 0} (t : Timing) (cancelled : Bool) (a : Attempt P) (r : Rotor)
    → IsSteady t r
    → (adopt cancelled a (record r { status = rotating })).1 ≢ stop
    → IsSteady t (adopt cancelled a (record r { status = rotating })).0
unfolding adopt
adopt-IsSteady t cancelled a r h n = elim (Option-cases a.chosen) [
  | inl e ↦ rw e (ground arith)
  | inr (res, e) ↦ rw e (ground (arith, health_threshold-pos t))
]

schedule-IsSteady :
    (t : Timing) (now : ℕ) (r : Rotor) → IsSteady t r → IsSteady t (schedule t now r)
unfolding schedule
schedule-IsSteady t now r h = ground arith

module _ {P : Type 0} (t : Timing) (s : Settings) where
  do_rotate-IsSteady :
      (w : World P) (cancelled : Bool) (r : Rotor)
      → IsSteady t r
      → (do_rotate s w cancelled r).1 ≢ stop
      → IsSteady t (do_rotate s w cancelled r).0
  unfolding do_rotate
  do_rotate-IsSteady w cancelled r h n =
      adopt-IsSteady t cancelled (find_and_start_working_config s w true r.last_used r.blacklist) r
        h n

  after_wake-IsSteady :
      (e : Event P) (r : Rotor) (d : Decision)
      → IsSteady t r
      → (after_wake t s e (r, d)).1 ≢ stop
      → IsSteady t (after_wake t s e (r, d)).0
  unfolding after_wake
  after_wake-IsSteady e r stop h n = absurd (n refl)
  after_wake-IsSteady e r wait h n = h
  after_wake-IsSteady e r rotate h n =
      let kept = do_rotate-IsSteady e.world e.cancelled r h n in
      ground (arith, kept, n, schedule-IsSteady t e.time (do_rotate s e.world e.cancelled r).0 kept)

  step-IsSteady :
      (e : Event P) (r : Rotor)
      → IsSteady t r
      → (step t s e r).1 ≢ stop
      → IsSteady t (step t s e r).0
  unfolding step
  step-IsSteady e r h n =
      let (r', d) = on_wake t s e.time e.wake r in
      after_wake-IsSteady e r' d (on_wake-IsSteady t s e.time e.wake r h) n

  run_rotation-IsSteady_from :
      (es : List (Event P)) (r : Rotor)
      → IsSteady t r
      → (run_rotation t s es r).1 ≢ stop
      → IsSteady t (run_rotation t s es r).0
  unfolding run_rotation
  run_rotation-IsSteady_from [] r h n = h
  run_rotation-IsSteady_from (e ∷ es) r h n =
      ground (arith, step-IsSteady e r h, run_rotation-IsSteady_from es (step t s e r).0)

start_rotation-IsSteady :
    {P : Type 0} (t : Timing) (s : Settings) (w : World P) (now : ℕ) (r : Rotor)
    → start_rotation t s w now ≡ some r
    → IsSteady t r
unfolding start_rotation schedule
start_rotation-IsSteady t s w now r h = ground (arith, health_threshold-pos t)

-- A service that starts, whatever its world, is steady, and it stays steady through every sequence
-- of wakes and searches that does not stop it.
pub run_rotation-IsSteady :
    {P : Type 0} (t : Timing) (s : Settings) (w : World P) (now : ℕ) (r : Rotor)
    (es : List (Event P))
    → start_rotation t s w now ≡ some r
    → IsSteady t r × ((run_rotation t s es r).1 ≢ stop → IsSteady t (run_rotation t s es r).0)
run_rotation-IsSteady t s w now r es h =
    let first = start_rotation-IsSteady t s w now r h in
    (first, run_rotation-IsSteady_from t s es r first)

-- The service after `n` failed health checks in a row, with the last decision.
pub failed_checks : Timing → Settings → (ℕ → ℕ) → ℕ → Rotor → Rotor × Decision
failed_checks t s clock zero r = (r, wait)
failed_checks t s clock (suc n) r =
    on_wake t s (clock n) (health false) (failed_checks t s clock n r).0

failed_checks-count :
    (t : Timing) (s : Settings) (clock : ℕ → ℕ) (n : ℕ) (r : Rotor)
    → r.health_fails ≡ 0
    → n < health_threshold t
    → failed_checks t s clock n r ≡ (record r { health_fails = n }, wait)
unfolding failed_checks on_wake
failed_checks-count t s clock zero r z h = ground arith
failed_checks-count t s clock (suc n) r z h =
    let ih = failed_checks-count t s clock n r z (omega arith) in rw ih (ground arith)

failed_checks-last :
    (t : Timing) (s : Settings) (clock : ℕ → ℕ) (n : ℕ) (r : Rotor)
    → r.health_fails ≡ 0
    → health_threshold t ≡ suc n
    → failed_checks t s clock (suc n) r
      ≡ (record r { blacklist = record_strike s (clock n) r.last_used r.blacklist }, rotate)
unfolding failed_checks on_wake
failed_checks-last t s clock n r z h =
    rw (failed_checks-count t s clock n r z (omega arith)) (ground arith)

checked_again :
    (t : Timing) (s : Settings) (clock : ℕ → ℕ) (n : ℕ) (r : Rotor)
    → r.health_fails ≡ 0
    → n < health_threshold t
    → on_wake t s (clock n) (health true) (failed_checks t s clock n r).0 ≡ (r, wait)
unfolding on_wake
checked_again t s clock n r z h = rw (failed_checks-count t s clock n r z h) (ground arith)

-- From a counter at 0, failed health checks in a row do nothing but count until the threshold is
-- reached; the check that reaches it strikes the outbound in use, resets the counter and rotates.
-- A check that succeeds in between sets the counter back to 0.
pub health_checks_lem :
    (t : Timing) (s : Settings) (clock : ℕ → ℕ) (r : Rotor)
    → r.health_fails ≡ 0
    → ((n : ℕ)
        → n < health_threshold t
        → failed_checks t s clock n r ≡ (record r { health_fails = n }, wait))
      × (let n = pred (health_threshold t) in
          failed_checks t s clock (health_threshold t) r
          ≡ (record r { blacklist = record_strike s (clock n) r.last_used r.blacklist }, rotate))
      × ((n : ℕ)
          → n < health_threshold t
          → on_wake t s (clock n) (health true) (failed_checks t s clock n r).0 ≡ (r, wait))
health_checks_lem t s clock r z =
    let n = pred (health_threshold t) in
    let full : health_threshold t ≡ suc n = omega (arith, health_threshold-pos t) in
    (
      λ k l. failed_checks-count t s clock k r z l,
      ap (λ (k : ℕ). failed_checks t s clock k r) full ∙ failed_checks-last t s clock n r z full,
      λ k l. checked_again t s clock k r z l,
    )
