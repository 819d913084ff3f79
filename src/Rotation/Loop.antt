-- ===== src/Rotation/Loop.antt =====
-- pkg/proxy/service.go: `runRotationMode`, the loop that waits for a reason to rotate, searches a
-- new outbound and hands the port over.
use xray_knife.Prelude.{
  ℕ, suc, ◌+◌, ◌*◌, Bool, true, false, List, [], ◌∷◌, Option, none, some, if◌then◌else◌, ltb, ◌==◌,
}
use xray_knife.Text.{Text}
use xray_knife.Rotation.Blacklist.{Settings, Blacklist, record_strike, second}
use xray_knife.Rotation.Candidates.{World, Attempt, find_and_start_working_config}

pub data RotationStatus : Type 0 where
  idle rotating stalled : RotationStatus

pub record Timing : Type 0 where
  pub rotation_interval : ℕ  -- seconds
  pub health_fail_threshold : ℕ

-- The service while it runs: `current` is the link of the instance that listens.
pub record Rotor : Type 0 where
  pub current : Option Text
  pub last_used : Text
  pub active_outbound : Option Text
  pub status : RotationStatus
  pub health_fails : ℕ
  pub next_rotation : ℕ
  pub blacklist : Blacklist

-- What the inner `select` receives: the context is done, a forced rotation, the timer, or a health
-- tick with the outcome of the check.
pub data Wake : Type 0 where
  done forced elapsed : Wake
  health : Bool → Wake

pub data Decision : Type 0 where
  stop wait rotate : Decision

unfoldable pub health_threshold : Timing → ℕ
health_threshold t = if t.health_fail_threshold == 0 then 3 else t.health_fail_threshold

unfoldable pub is_stalled : RotationStatus → Bool
is_stalled stalled = true
is_stalled _ = false

-- The head of the loop: when the next rotation is due.
unfoldable pub schedule : Timing → ℕ → Rotor → Rotor
unfolding is_stalled
schedule t now r = record r {
  next_rotation = now + (if is_stalled r.status then 30 else t.rotation_interval) * second;
}

-- One round of the inner loop.
unfoldable pub on_wake : Timing → Settings → ℕ → Wake → Rotor → Rotor × Decision
unfolding health_threshold
on_wake t s now done r = (r, stop)
on_wake t s now forced r = (r, rotate)
on_wake t s now elapsed r = (r, rotate)
on_wake t s now (health true) r = (record r { health_fails = 0 }, wait)
on_wake t s now (health false) r =
    let fails = suc r.health_fails in
    if ltb fails (health_threshold t) then (record r { health_fails = fails }, wait) else (
      record r { health_fails = 0; blacklist = record_strike s now r.last_used r.blacklist },
      rotate,
    )

-- What follows the search: `cancelled` is whether the context is done where the search failed.
unfoldable pub adopt : {P : Type 0} → Bool → Attempt P → Rotor → Rotor × Decision
adopt cancelled a r = elim a.chosen [
  | some res ↦ (
    record r {
      current = some res.config_link;
      last_used = res.config_link;
      active_outbound = some res.config_link;
      status = idle;
      health_fails = 0;
      blacklist = a.blacklist;
    },
    wait,
  )
  | none ↦
      let left = record r {
        current = if a.port_released then none else r.current;
        status = if cancelled then rotating else stalled;
        blacklist = a.blacklist;
      } in
      (left, if cancelled then stop else wait)
]

unfoldable pub do_rotate : {P : Type 0} → Settings → World P → Bool → Rotor → Rotor × Decision
unfolding adopt
do_rotate s w cancelled r =
    adopt cancelled (find_and_start_working_config s w true r.last_used r.blacklist)
      (record r { status = rotating })

-- The start of the service, and the head of the loop at time `now`: no instance listens yet, and a
-- failed search ends it.
unfoldable pub start_rotation : {P : Type 0} → Timing → Settings → World P → ℕ → Option Rotor
unfolding schedule
start_rotation t s w now =
    let a = find_and_start_working_config s w false [] [] in
    elim a.chosen [
      | none ↦ none
      | some res ↦ some (
          schedule t now (record {
            current = some res.config_link;
            last_used = res.config_link;
            active_outbound = some res.config_link;
            status = idle;
            health_fails = 0;
            next_rotation = 0;
            blacklist = a.blacklist;
          }))
    ]

-- One thing that happens to the running service: what woke it, when, and what the search met if
-- it led to one.
pub record Event (P : Type 0) : Type 0 where
  pub wake : Wake
  pub time : ℕ
  pub world : World P
  pub cancelled : Bool

unfoldable pub after_wake :
    {P : Type 0} → Timing → Settings → Event P → Rotor × Decision → Rotor × Decision
unfolding do_rotate schedule
after_wake t s e (r, stop) = (r, stop)
after_wake t s e (r, wait) = (r, wait)
after_wake t s e (r, rotate) =
    let (r', d) = do_rotate s e.world e.cancelled r in
    (elim d [ stop ↦ r' | _ ↦ schedule t e.time r' ], d)

unfoldable pub step : {P : Type 0} → Timing → Settings → Event P → Rotor → Rotor × Decision
unfolding after_wake on_wake
step t s e r = after_wake t s e (on_wake t s e.time e.wake r)

-- The loop over what happens, until it stops.
unfoldable pub run_rotation :
    {P : Type 0} → Timing → Settings → List (Event P) → Rotor → Rotor × Decision
run_rotation t s [] r = (r, wait)
run_rotation t s (e ∷ es) r =
    let (r', d) = step t s e r in
    let rest = run_rotation t s es r' in elim d [ stop ↦ (r', stop) | _ ↦ rest ]
