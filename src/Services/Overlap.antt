-- ===== src/Services/Overlap.antt =====
-- What happens when the service is started again while it stops.
use xray_knife.Prelude.{
  ℕ, suc, ◌≡◌, ◌<◌, refl, ◌∙◌, true, false, List, [], ◌∷◌, Option, none, some, ◌==◌, arith,
}
use xray_knife.Services.{
  idle, running, stopping, Run, Runner, created, is_busy, start_with, start, stop, begin, finish,
  ServiceEvent, starts, begins, finishes, stops, service_step, run_service,
}

module _ (old : Run) (leaving next : ℕ) (current : Option ℕ) where
  -- `Stop` waits for the run `old` to end.
  abbrev pub waiting : Runner
  waiting = record {
    state = stopping;
    active = old ∷ [];
    leaving = leaving;
    current = current;
    next = next;
  }

  abbrev pub second_run : Run
  second_run = record { id = next; begun = true; cancelled = false }

  abbrev begun_runner : Runner
  begun_runner = record {
    state = running;
    active = second_run ∷ old ∷ [];
    leaving = leaving;
    current = some next;
    next = suc next;
  }

  begin_second : old.id < next → begin next (start_with created waiting) ≡ some begun_runner
  unfolding begin start_with
  begin_second l =
      let same : (next == next) ≡ true = ground arith in
      let other : (old.id == next) ≡ false = ground arith in rw (same, other) refl

  finish_old :
      old.begun ≡ true
      → old.id < next
      → finish old.id begun_runner
        ≡ some
            (record begun_runner { state = idle; active = second_run ∷ []; leaving = suc leaving })
  unfolding finish
  finish_old b l =
      let same : (old.id == old.id) ≡ true = ground arith in
      let other : (next == old.id) ≡ false = ground arith in rw (same, other, b) refl

run_service-next :
    (e : ServiceEvent) (es : List ServiceEvent) (r s : Runner)
    → service_step e r ≡ some s
    → run_service (e ∷ es) r ≡ run_service es s
unfolding run_service
run_service-next e es r s h = rw (run_service, h) refl

-- While `Stop` waits for a run to end, `Start` is taken and makes a second run. When the first run
-- ends, its deferred call sets the state to idle, although the second run is at work and its
-- context is not cancelled; from then on `Stop` is refused.
pub restart_while_stopping :
    (old : Run) (leaving next : ℕ) (current : Option ℕ)
    → old.begun ≡ true
    → old.id < next
    → (s : Runner) × (run_service
          (starts created ∷ begins next ∷ finishes old.id ∷ [])
          (waiting old leaving next current)
        ≡ some s)
      × (s.state ≡ idle)
      × (s.active ≡ record { id = next; begun = true; cancelled = false } ∷ [])
      × (service_step stops s ≡ none)
unfolding run_service service_step start stop is_busy
restart_while_stopping old leaving next current b l = (
  record {
    state = idle;
    active = record { id = next; begun = true; cancelled = false } ∷ [];
    leaving = suc leaving;
    current = some next;
    next = suc next;
  },
  run_service-next (starts created) (begins next ∷ finishes old.id ∷ [])
        (waiting old leaving next current) (start_with created (waiting old leaving next current))
        refl
      ∙ run_service-next (begins next) (finishes old.id ∷ [])
          (start_with created (waiting old leaving next current))
          (begun_runner old leaving next current) (begin_second old leaving next current l)
      ∙ run_service-next (finishes old.id) [] (begun_runner old leaving next current) _
          (finish_old old leaving next current b l),
  refl,
  refl,
  refl,
)
