-- ===== src/Services.antt =====
-- web/services.go: the life of the proxy service behind the web server (BaseService and
-- ProxyServiceRunner). Every call and every goroutine is cut at its locks: an event is one locked
-- section, and a list of events is an interleaving. `none` is an event that cannot happen or a call
-- that is refused.
pub mod Overlap
pub mod Sequential
use xray_knife.Prelude.{
  ℕ, zero, suc, ◌+◌, Bool, true, false, not, ◌||◌, ◌&&◌, List, [], ◌∷◌, Option, none, some,
  if◌then◌else◌, ◌==◌, keep, map, any,
}

pub data ServiceState : Type 0 where
  idle starting running stopping finished failed : ServiceState

-- A goroutine of `run` before its deferred SetState: whether it has set the state to running, and
-- whether its context is cancelled.
pub record Run : Type 0 where
  pub id : ℕ
  pub begun : Bool
  pub cancelled : Bool

-- `leaving` counts the goroutines that have set the state to idle and are still in the wait group;
-- `current` is the run whose context `cancelFunc` cancels.
pub record Runner : Type 0 where
  pub state : ServiceState
  pub active : List Run
  pub leaving : ℕ
  pub current : Option ℕ
  pub next : ℕ

abbrev pub new_runner : Runner
new_runner = record { state = idle; active = []; leaving = 0; current = none; next = 0 }

-- What `Start` meets: a config of the wrong type, an error of proxy.New, or neither.
pub data StartOutcome : Type 0 where
  bad_config bad_service created : StartOutcome

unfoldable pub is_busy : ServiceState → Bool
is_busy running = true
is_busy starting = true
is_busy _ = false

-- `Start`; a config of the wrong type changes nothing.
unfoldable pub start_with : StartOutcome → Runner → Runner
start_with bad_config r = r
start_with bad_service r = record r { state = failed }
start_with created r = record r {
  state = starting;
  active = record { id = r.next; begun = false; cancelled = false } ∷ r.active;
  current = some r.next;
  next = suc r.next;
}

unfoldable pub start : StartOutcome → Runner → Option Runner
unfolding is_busy start_with
start outcome r = if is_busy r.state then none else some (start_with outcome r)

unfoldable pub is_current : Option ℕ → ℕ → Bool
is_current none i = false
is_current (some j) i = i == j

unfoldable pub cancel : Option ℕ → Run → Run
unfolding is_current
cancel current run = record run { cancelled = run.cancelled || is_current current run.id }

-- `Stop` up to its wait.
unfoldable pub stop : Runner → Option Runner
unfolding is_busy cancel
stop r =
    if is_busy r.state
    then some (record r { state = stopping; active = map (cancel r.current) r.active })
    else none

-- The goroutine sets the state to running.
unfoldable pub begin : ℕ → Runner → Option Runner
begin i r =
    if any (λ run. run.id == i && not run.begun) r.active
    then some (record r {
      state = running;
      active = map (λ run. if run.id == i then record run { begun = true } else run) r.active;
    })
    else none

-- The call of `Run` has returned, or panicked: the deferred SetState.
unfoldable pub finish : ℕ → Runner → Option Runner
finish i r =
    if any (λ run. run.id == i && run.begun) r.active
    then some (record r {
      state = idle;
      active = keep (λ run. not (run.id == i)) r.active;
      leaving = suc r.leaving;
    })
    else none

-- The deferred wg.Done.
unfoldable pub done_from : ℕ → Runner → Option Runner
done_from zero r = none
done_from (suc n) r = some (record r { leaving = n })

-- The wait of `Stop` is over.
unfoldable pub stopped : Runner → Option Runner
stopped r = elim r.active [ [] ↦ if r.leaving == 0 then some r else none | run ∷ runs ↦ none ]

pub data ServiceEvent : Type 0 where
  starts : StartOutcome → ServiceEvent
  begins finishes : ℕ → ServiceEvent
  leaves stops returns : ServiceEvent

unfoldable pub service_step : ServiceEvent → Runner → Option Runner
unfolding start stop begin finish done_from stopped
service_step (starts outcome) r = start outcome r
service_step (begins i) r = begin i r
service_step (finishes i) r = finish i r
service_step leaves r = done_from r.leaving r
service_step stops r = stop r
service_step returns r = stopped r

unfoldable pub run_service : List ServiceEvent → Runner → Option Runner
unfolding service_step
run_service [] r = some r
run_service (e ∷ es) r = elim (service_step e r) [ none ↦ none | some s ↦ run_service es s ]
