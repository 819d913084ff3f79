-- ===== src/Services/Sequential.antt =====
-- The life of the service when nobody starts it while it stops.
use xray_knife.Prelude.{
  ℕ, zero, suc, ◌≡◌, ◌≢◌, refl, inl, inr, Bool, true, false, List, [], ◌∷◌, Option, none, some,
  ◌==◌, arith, Bool-cases, Option-cases,
}
use mathlib.Core.Path.{subst}
use xray_knife.Services.{
  idle, starting, running, stopping, failed, Runner, new_runner, StartOutcome, bad_config,
  bad_service, created, is_busy, start_with, start, is_current, cancel, stop, begin, finish,
  ServiceEvent, starts, begins, finishes, leaves, stops, returns, service_step, run_service,
  done_from, stopped,
}

-- What the state says of the goroutines: none is at work in an idle or failed service; in the other
-- states there is one, whose context `Stop` cancels, and it has not begun, has begun, or is
-- cancelled.
pub data IsTruthful : Runner → Type 0 where
  at_rest :
      (leaving next : ℕ) (current : Option ℕ)
      → IsTruthful
          (record { state = idle; active = []; leaving = leaving; current = current; next = next })
  at_fault :
      (leaving next : ℕ) (current : Option ℕ)
      → IsTruthful (record {
        state = failed;
        active = [];
        leaving = leaving;
        current = current;
        next = next;
      })
  at_start :
      (i leaving next : ℕ)
      → IsTruthful (record {
        state = starting;
        active = record { id = i; begun = false; cancelled = false } ∷ [];
        leaving = leaving;
        current = some i;
        next = next;
      })
  at_work :
      (i leaving next : ℕ) (b : Bool)
      → IsTruthful (record {
        state = running;
        active = record { id = i; begun = true; cancelled = b } ∷ [];
        leaving = leaving;
        current = some i;
        next = next;
      })
  at_end :
      (i leaving next : ℕ) (b : Bool)
      → IsTruthful (record {
        state = stopping;
        active = record { id = i; begun = b; cancelled = true } ∷ [];
        leaving = leaving;
        current = some i;
        next = next;
      })

start_with-IsTruthful :
    (o : StartOutcome) (r : Runner)
    → IsTruthful r
    → is_busy r.state ≡ false
    → r.state ≢ stopping
    → IsTruthful (start_with o r)
unfolding start_with is_busy
start_with-IsTruthful bad_config r t h n = t
start_with-IsTruthful bad_service _ (at_rest leaving next current) h n =
    at_fault leaving next current
start_with-IsTruthful bad_service _ (at_fault leaving next current) h n =
    at_fault leaving next current
start_with-IsTruthful bad_service _ (at_start i leaving next) h n = absurd (cc h)
start_with-IsTruthful bad_service _ (at_work i leaving next b) h n = absurd (cc h)
start_with-IsTruthful bad_service _ (at_end i leaving next b) h n = absurd (n refl)
start_with-IsTruthful created _ (at_rest leaving next current) h n =
    at_start next leaving (suc next)
start_with-IsTruthful created _ (at_fault leaving next current) h n =
    at_start next leaving (suc next)
start_with-IsTruthful created _ (at_start i leaving next) h n = absurd (cc h)
start_with-IsTruthful created _ (at_work i leaving next b) h n = absurd (cc h)
start_with-IsTruthful created _ (at_end i leaving next b) h n = absurd (n refl)

land : {a s : Runner} → some a ≡ some s → IsTruthful a → IsTruthful s
land h t = subst IsTruthful (cc h) t

begin-IsTruthful : (i : ℕ) (r s : Runner) → IsTruthful r → begin i r ≡ some s → IsTruthful s
unfolding begin
begin-IsTruthful i _ s (at_rest leaving next current) h = absurd (cc h)
begin-IsTruthful i _ s (at_fault leaving next current) h = absurd (cc h)
begin-IsTruthful i _ s (at_start j leaving next) h = elim (Bool-cases (j == i)) [
  | inl e ↦ land (rw e at h) (at_work j leaving next false)
  | inr e ↦ absurd (cc (rw e at h))
]
begin-IsTruthful i _ s (at_work j leaving next b) h = elim (Bool-cases (j == i)) [
  | inl e ↦ absurd (cc (rw e at h))
  | inr e ↦ absurd (cc (rw e at h))
]
begin-IsTruthful i _ s (at_end j leaving next b) h = elim (Bool-cases (j == i)) [
  | inr e ↦ absurd (cc (rw e at h))
  | inl e ↦ elim (Bool-cases b) [
    | inl f ↦ absurd (cc (rw (e, f) at h))
    | inr f ↦ land (rw (e, f) at h) (at_work j leaving next true)
  ]
]

finish-IsTruthful : (i : ℕ) (r s : Runner) → IsTruthful r → finish i r ≡ some s → IsTruthful s
unfolding finish
finish-IsTruthful i _ s (at_rest leaving next current) h = absurd (cc h)
finish-IsTruthful i _ s (at_fault leaving next current) h = absurd (cc h)
finish-IsTruthful i _ s (at_start j leaving next) h = elim (Bool-cases (j == i)) [
  | inl e ↦ absurd (cc (rw e at h))
  | inr e ↦ absurd (cc (rw e at h))
]
finish-IsTruthful i _ s (at_work j leaving next b) h = elim (Bool-cases (j == i)) [
  | inl e ↦ land (rw e at h) (at_rest (suc leaving) next (some j))
  | inr e ↦ absurd (cc (rw e at h))
]
finish-IsTruthful i _ s (at_end j leaving next b) h = elim (Bool-cases (j == i)) [
  | inr e ↦ absurd (cc (rw e at h))
  | inl e ↦ elim (Bool-cases b) [
    | inl f ↦ land (rw (e, f) at h) (at_rest (suc leaving) next (some j))
    | inr f ↦ absurd (cc (rw (e, f) at h))
  ]
]

stop-IsTruthful : (r s : Runner) → IsTruthful r → stop r ≡ some s → IsTruthful s
unfolding stop is_busy cancel is_current
stop-IsTruthful _ s (at_rest leaving next current) h = absurd (cc h)
stop-IsTruthful _ s (at_fault leaving next current) h = absurd (cc h)
stop-IsTruthful _ s (at_start j leaving next) h =
    let same : (j == j) ≡ true = ground arith in land (rw same at h) (at_end j leaving next false)
stop-IsTruthful _ s (at_work j leaving next b) h =
    let same : (j == j) ≡ true = ground arith in
    elim (Bool-cases b) [
      | inl f ↦ land (rw (same, f) at h) (at_end j leaving next true)
      | inr f ↦ land (rw (same, f) at h) (at_end j leaving next true)
    ]
stop-IsTruthful _ s (at_end j leaving next b) h = absurd (cc h)

done_from-IsTruthful : (n : ℕ) (r s : Runner) → IsTruthful r → done_from n r ≡ some s → IsTruthful s
unfolding done_from
done_from-IsTruthful zero r s t h = absurd (cc h)
done_from-IsTruthful (suc n) _ s (at_rest leaving next current) h = land h (at_rest n next current)
done_from-IsTruthful (suc n) _ s (at_fault leaving next current) h =
    land h (at_fault n next current)
done_from-IsTruthful (suc n) _ s (at_start j leaving next) h = land h (at_start j n next)
done_from-IsTruthful (suc n) _ s (at_work j leaving next b) h = land h (at_work j n next b)
done_from-IsTruthful (suc n) _ s (at_end j leaving next b) h = land h (at_end j n next b)

stopped_same : (r s : Runner) → IsTruthful r → stopped r ≡ some s → IsTruthful s
unfolding stopped
stopped_same _ s (at_rest leaving next current) h = elim (Bool-cases (leaving == 0)) [
  | inl e ↦ land (rw e at h) (at_rest leaving next current)
  | inr e ↦ absurd (cc (rw e at h))
]
stopped_same _ s (at_fault leaving next current) h = elim (Bool-cases (leaving == 0)) [
  | inl e ↦ land (rw e at h) (at_fault leaving next current)
  | inr e ↦ absurd (cc (rw e at h))
]
stopped_same _ s (at_start j leaving next) h = absurd (cc h)
stopped_same _ s (at_work j leaving next b) h = absurd (cc h)
stopped_same _ s (at_end j leaving next b) h = absurd (cc h)

start-IsTruthful :
    (o : StartOutcome) (r s : Runner)
    → IsTruthful r
    → r.state ≢ stopping
    → start o r ≡ some s
    → IsTruthful s
unfolding start
start-IsTruthful o r s t n h = elim (Bool-cases (is_busy r.state)) [
  | inl e ↦ absurd (cc (rw e at h))
  | inr e ↦ land (rw e at h) (start_with-IsTruthful o r t e n)
]

-- No `Start` is taken while the service stops.
abbrev MayStart : ServiceEvent → Runner → Type 0
MayStart (starts o) r = r.state ≢ stopping
MayStart (begins i) r = Unit
MayStart (finishes i) r = Unit
MayStart leaves r = Unit
MayStart stops r = Unit
MayStart returns r = Unit

abbrev pub IsSequential : List ServiceEvent → Runner → Type 0
IsSequential [] r = Unit
IsSequential (e ∷ es) r =
    MayStart e r × ((s : Runner) → service_step e r ≡ some s → IsSequential es s)

service_step-IsTruthful :
    (e : ServiceEvent) (r s : Runner)
    → IsTruthful r
    → MayStart e r
    → service_step e r ≡ some s
    → IsTruthful s
unfolding service_step
service_step-IsTruthful (starts o) r s t m h = start-IsTruthful o r s t m h
service_step-IsTruthful (begins i) r s t m h = begin-IsTruthful i r s t h
service_step-IsTruthful (finishes i) r s t m h = finish-IsTruthful i r s t h
service_step-IsTruthful leaves r s t m h = done_from-IsTruthful r.leaving r s t h
service_step-IsTruthful stops r s t m h = stop-IsTruthful r s t h
service_step-IsTruthful returns r s t m h = stopped_same r s t h

run_service_from :
    (es : List ServiceEvent) (r s : Runner)
    → IsTruthful r
    → IsSequential es r
    → run_service es r ≡ some s
    → IsTruthful s
unfolding run_service
run_service_from [] r s t q h = land h t
run_service_from (e ∷ es) r s t (m, q) h = elim (Option-cases (service_step e r)) [
  | inl f ↦ absurd (cc (rw (run_service, f) at h))
  | inr (k, f) ↦
      run_service_from es k s (service_step-IsTruthful e r k t m f) (q k f)
        (rw (run_service, f) at h)
]

-- In every interleaving of calls and goroutines in which no `Start` is taken while the service
-- stops, the state of the service tells the truth: no goroutine is at work in an idle or failed
-- service, and in a starting, running or stopping one there is just one, the one whose context
-- `Stop` cancels.
pub run_service-IsTruthful :
    (es : List ServiceEvent) (s : Runner)
    → IsSequential es new_runner
    → run_service es new_runner ≡ some s
    → IsTruthful s
run_service-IsTruthful es s q h = run_service_from es new_runner s (at_rest 0 0 none) q h
