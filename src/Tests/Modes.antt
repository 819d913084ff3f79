-- ===== src/Tests/Modes.antt =====
-- Tests of the rotation of chains.
use xray_knife.Prelude.{◌⊎◌, ℕ, ◌≡◌, refl, true, false, [], ◌∷◌, none, some, ◌==◌, if◌then◌else◌}
use xray_knife.Text.{
  Text, bytes, eq_text, is_empty, has_prefix, trim_prefix, contains, cut, split, trim_space, strip,
  space_width, last_space_width, decimal,
}
use xray_knife.Core.{ok, err, read_link}
use xray_knife.Pool.{seen_before}
use xray_knife.Chain.{
  read_hop, gather, select_chain_from_pool, used_links, exit_candidates, first_readable,
  select_exit_hop_from_pool, resolve_fixed_chain,
}
use xray_knife.ChainMode.{
  ChainWorld, try_chain, find_loop, find_working_chain, find_exit_chain, stalled, opened, closed,
  ChainRotor, switch_chain, rotate_with, start_chain, forced, checked, run_chain, ChainInput,
  rotate_full, rotate_exit, run_full_rotation, first_chain, run_exit_rotation,
}
use xray_knife.ChainMode.Search.{SearchEnds, find_working_chain_lem}
use xray_knife.ChainMode.Modes.{
  ChainSettings, is_fixed_chain, run_still, run_fixed_chain, run_no_rotation, run_chain_mode,
}
use xray_knife.ChainMode.Modes.Served.{run_chain_mode-IsServed}
use xray_knife.ChainMode.Serving.{replay}
use xray_knife.Tests.{text_core, link_a, link_b, pool}

modes_code : Unit {0}
unfolding eq_text is_empty has_prefix trim_prefix contains cut split trim_space strip space_width
    last_space_width decimal read_link seen_before read_hop gather select_chain_from_pool used_links
    exit_candidates first_readable select_exit_hop_from_pool try_chain find_loop find_working_chain
    find_exit_chain switch_chain rotate_with start_chain run_chain rotate_full rotate_exit
    run_full_rotation first_chain run_exit_rotation is_fixed_chain run_still run_fixed_chain
    run_no_rotation run_chain_mode
modes_code = tt

-- The chain of the first attempt fails its test.
abbrev worlds : ℕ → ChainWorld Text
worlds n = record {
  shuffle = λ links. links;
  done = none;
  client = λ hops. ok tt;
  passes = λ hops. if n == 0 then false else true;
}

find_working_chain_lem_example :
    SearchEnds text_core pool 2 worlds 0 3
      (bytes "could not find a working chain after 3 attempts")
      (find_working_chain text_core pool 2 3 worlds)
unfolding modes_code
find_working_chain_lem_example = find_working_chain_lem text_core pool 2 worlds 3

search_tests :
    (find_working_chain text_core pool 2 3 worlds ≡ ok (link_a ∷ link_b ∷ []))
    × (find_working_chain text_core pool 2 1 worlds
        ≡ err (bytes "could not find a working chain after 1 attempts"))
unfolding modes_code
search_tests = (refl, refl)

abbrev good : ChainInput Text
good = record { worlds = worlds; swap = record { make = ok tt; start = ok tt } }

-- The new instance cannot take the port.
abbrev bad : ChainInput Text
bad = record { worlds = worlds; swap = record { make = ok tt; start = err (bytes "in use") } }

-- A rotation that fails to start its instance, after the old one is closed.
abbrev left_down : ChainRotor Text
left_down = record {
  hops = link_a ∷ link_b ∷ [];
  shown = link_a ∷ link_b ∷ [];
  last_exit = link_b;
  listening = false;
  status = stalled;
  events = opened ∷ closed ∷ [];
}

abbrev rotating : ChainSettings
rotating = record {
  chain_links = [];
  chain_file = [];
  chain_rotation = bytes "full";
  chain_hops = 2;
  chain_attempts = 2;
}

run_chain_mode-IsServed_example :
    ((replay false (opened ∷ closed ∷ []) ≡ some false)
      × (left_down.shown ≡ (link_a ∷ link_b ∷ [])))
    × ((is_fixed_chain rotating ≡ false)
        ⊎ (resolve_fixed_chain (λ name. []) text_core [] [] ≡ ok (link_a ∷ link_b ∷ [])))
unfolding modes_code
run_chain_mode-IsServed_example =
    run_chain_mode-IsServed text_core pool (λ name. []) rotating good
      ((checked true, good) ∷ (forced, bad) ∷ []) left_down refl

rotation_tests :
    run_full_rotation text_core pool 2 1 good []
    ≡ err (
        bytes
          "failed to find initial working chain: could not find a working chain after 1 attempts")
unfolding modes_code
rotation_tests = refl
