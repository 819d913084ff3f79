-- ===== src/Tests/Rotations.antt =====
-- Tests of the rotation service.
use xray_knife.Prelude.{
  ◌⊎◌, suc, ◌≡◌, ◌≢◌, refl, ap, inl, inr, true, false, List, [], ◌∷◌, none, some, arith,
  if◌then◌else◌, In,
}
use xray_knife.Text.{Text, bytes, eq_text, is_empty}
use xray_knife.Dict.{lookup, insert, erase}
use xray_knife.Examiner.Types.{Result, is_passed}
use xray_knife.Examiner.Run.{initial_result}
use xray_knife.Rotation.Blacklist.{
  Blacklist, Settings, strike_entry, entry_of, record_strike, is_expired, is_absent, filter_links,
  filter_blacklisted, drop_last_used, candidates_of,
}
use xray_knife.Rotation.Candidates.{
  World, released, started, start_failed, batch_size_for, has_protocol, strike_failures, handover,
  try_results, batch_of, find_and_start_working_config,
}
use xray_knife.Rotation.Loop.{
  Timing, Rotor, forced, health, stop, wait, idle, health_threshold, on_wake, schedule, adopt,
  do_rotate, start_rotation, Event, step, run_rotation, after_wake,
}
use xray_knife.Rotation.Handover.{replay, find_and_start_one_listener}
use xray_knife.Rotation.Selection.{IsFair, find_and_start_chosen}
use xray_knife.Rotation.Steady.{IsSteady, run_rotation-IsSteady, failed_checks, health_checks_lem}
use xray_knife.Rotation.Filtering.{admits, filter_blacklisted_lem, fresh_entry}
use xray_knife.Rotation.Strikes.{
  after_failures, failing_link_tested_again, after_strikes, limit_after, strikes_in_a_row,
}
use xray_knife.Tests.{link_a, link_b}

rotation_code : Unit {0}
unfolding eq_text is_empty is_passed initial_result strike_entry entry_of record_strike is_expired
    is_absent filter_links filter_blacklisted drop_last_used candidates_of batch_size_for
    has_protocol strike_failures handover try_results batch_of find_and_start_working_config
    health_threshold on_wake schedule adopt do_rotate start_rotation step run_rotation after_wake
    lookup insert erase admits
rotation_code = tt

abbrev settings : Settings
settings = record {
  config_links = link_a ∷ link_b ∷ [];
  blacklist_strikes = 2;
  blacklist_duration = 600;
  batch_size = 0;
  concurrency = 0;
}

abbrev passing : Text → Result Text
passing link = record (initial_result link) { protocol = some link }

-- Every link passes, and the first instance does not start.
abbrev world : World Text
world = record {
  shuffle = λ links. links;
  examine = passing;
  sort = λ results. results;
  make_instance = λ link. none;
  start = λ link. if eq_text link link_a then some (bytes "in use") else none;
  now = 5;
  strike_time = λ link. 6;
  cancelled = false;
}

rotation_tests :
    ((find_and_start_working_config settings world true [] []).events
      ≡ released ∷ start_failed link_a ∷ started link_b ∷ [])
    × ((find_and_start_working_config settings world true link_b []).events
        ≡ released ∷ start_failed link_a ∷ [])
unfolding rotation_code
rotation_tests = (refl, refl)

find_and_start_one_listener_example :
    replay true (find_and_start_working_config settings world true [] []).events ≡ some true
unfolding rotation_code
find_and_start_one_listener_example =
    find_and_start_one_listener settings world true true [] [] (λ live. refl)

distinct_links : ¬ (link_b ≡ link_a)
unfolding rotation_code
distinct_links e = conflict (ap (λ t. eq_text t link_a) e)
  where
    conflict : ¬ (false ≡ true)
    conflict h = cc h

world-IsFair : IsFair settings world
unfolding rotation_code
world-IsFair = record {
  shuffled = λ l i. i;
  apart = (λ i. elim i [ inl e ↦ distinct_links e | inr j ↦ j ], (λ i. i, tt));
  sorted = λ r rs i. i;
  sorted_all = λ r rs i. i;
  named = λ l. refl;
}

find_and_start_chosen_example :
    (find_and_start_working_config settings world false [] []).chosen ≢ none
unfolding rotation_code
find_and_start_chosen_example =
    (find_and_start_chosen settings world false [] [] world-IsFair).1 link_b refl (inr (inl refl))
      refl refl refl refl

abbrev timing : Timing
timing = record { rotation_interval = 300; health_fail_threshold = 0 }

abbrev rotor : Rotor
rotor = record {
  current = some link_b;
  last_used = link_b;
  active_outbound = some link_b;
  status = idle;
  health_fails = 0;
  next_rotation = 0;
  blacklist = (link_a, record { strikes = 1; until = 0 }) ∷ [];
}

abbrev events : List (Event Text)
events =
    record { wake = health false; time = 7; world = world; cancelled = false }
    ∷ record { wake = forced; time = 8; world = world; cancelled = false }
    ∷ []

abbrev started_rotor : Rotor
started_rotor = record rotor { next_rotation = 300000000006 }

run_rotation-IsSteady_example :
    IsSteady timing started_rotor
    × ((run_rotation timing settings events started_rotor).1 ≢ stop
        → IsSteady timing (run_rotation timing settings events started_rotor).0)
unfolding rotation_code
run_rotation-IsSteady_example =
    run_rotation-IsSteady timing settings world 6 started_rotor events refl

health_checks_lem_example :
    failed_checks timing settings (λ n. n) 2 rotor ≡ (record rotor { health_fails = 2 }, wait)
unfolding rotation_code
health_checks_lem_example =
    (health_checks_lem timing settings (λ n. n) rotor refl).0 2 (omega arith)

abbrev struck_a : Blacklist
struck_a = (link_a, record { strikes = 2; until = 9 }) ∷ []

link_b_passes : In link_b (filter_blacklisted settings 5 (link_a ∷ link_b ∷ []) struck_a).0
unfolding rotation_code
link_b_passes = inl refl

filter_blacklisted_lem_example :
    In link_b (link_a ∷ link_b ∷ [])
    × (entry_of link_b (filter_blacklisted settings 5 (link_a ∷ link_b ∷ []) struck_a).1
        ≡ fresh_entry)
    × ((admits 5 link_b struck_a ≡ true)
        ⊎ ((k : Text) → In k (link_a ∷ link_b ∷ []) → admits 5 k struck_a ≡ false))
filter_blacklisted_lem_example =
    (filter_blacklisted_lem settings 5 (link_a ∷ link_b ∷ []) struck_a link_b (λ e. cc e)).0
      link_b_passes

strikes_in_a_row_example :
    entry_of link_a (after_strikes settings link_a (λ n. suc n) 3)
    ≡ record { strikes = 3; until = limit_after settings link_a (λ n. suc n) 3 }
strikes_in_a_row_example =
    strikes_in_a_row settings link_a (λ n. suc n) (λ e. cc e) (λ e. cc e) (λ n. omega arith) 3

failing_link_tested_again_example :
    In link_a
      (filter_blacklisted settings 51
        (link_a ∷ link_b ∷ [])
        (after_failures settings (link_a ∷ link_b ∷ []) link_a (λ n. suc n) 50)).0
failing_link_tested_again_example =
    failing_link_tested_again settings (link_a ∷ link_b ∷ []) link_a (λ n. suc n) (omega arith)
      (λ e. cc e) (inl refl) (λ n. omega arith) 50
