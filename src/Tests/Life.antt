-- ===== src/Tests/Life.antt =====
-- Tests of the proxy service of the web server.
use xray_knife.Prelude.{◌≡◌, refl, true, false, List, [], ◌∷◌, none, some, arith}
use xray_knife.Services.{
  idle, Run, Runner, new_runner, created, bad_config, is_busy, start_with, start, is_current,
  cancel, stop, begin, finish, done_from, stopped, ServiceEvent, starts, begins, finishes, leaves,
  stops, returns, service_step, run_service,
}
use xray_knife.Services.Overlap.{waiting, restart_while_stopping}
use xray_knife.Services.Sequential.{IsSequential, IsTruthful, run_service-IsTruthful}

service_code : Unit {0}
unfolding is_busy start_with start is_current cancel stop begin finish done_from stopped
    service_step run_service
service_code = tt

abbrev life : List ServiceEvent
life = starts created ∷ stops ∷ begins 0 ∷ finishes 0 ∷ leaves ∷ returns ∷ []

abbrev at_end_of_life : Runner
at_end_of_life = record { state = idle; active = []; leaving = 0; current = some 0; next = 1 }

service_tests :
    (run_service life new_runner ≡ some at_end_of_life)
    × (run_service (starts created ∷ starts bad_config ∷ []) new_runner ≡ none)
unfolding service_code
service_tests = (refl, refl)

life-IsSequential : IsSequential life new_runner
life-IsSequential = (
  (λ e. cc e),
  (λ r h. (tt, (λ r h. (tt, (λ r h. (tt, (λ r h. (tt, (λ r h. (tt, (λ r h. tt))))))))))),
)

run_service-IsTruthful_example : IsTruthful at_end_of_life
unfolding service_code
run_service-IsTruthful_example = run_service-IsTruthful life at_end_of_life life-IsSequential refl

abbrev old_run : Run
old_run = record { id = 0; begun = true; cancelled = true }

restart_while_stopping_example :
    (s : Runner) × (run_service
        (starts created ∷ begins 1 ∷ finishes 0 ∷ [])
        (waiting old_run 0 1 (some 0))
      ≡ some s)
    × (s.state ≡ idle)
    × (s.active ≡ record { id = 1; begun = true; cancelled = false } ∷ [])
    × (service_step stops s ≡ none)
restart_while_stopping_example = restart_while_stopping old_run 0 1 (some 0) refl (omega arith)
