-- ===== src/ChainMode/Modes.antt =====
-- pkg/proxy/service.go: runChainMode, which picks the mode, and the modes without a rotation.
pub mod Served
use xray_knife.Prelude.{ℕ, Bool, true, false, ◌||◌, not, List, ◌++◌, if◌then◌else◌}
use xray_knife.Text.{Text, bytes, is_empty, eq_text}
use xray_knife.Core.{Fallible, ok, err, Core}
use xray_knife.Chain.{select_chain_from_pool, resolve_fixed_chain}
use xray_knife.ChainMode.{
  ChainWake, ChainInput, ChainRotor, Swap, hops_for, start_chain, run_chain, run_full_rotation,
  run_exit_rotation,
}

pub record ChainSettings : Type 0 where
  pub chain_links : Text
  pub chain_file : Text
  pub chain_rotation : Text
  pub chain_hops : ℕ
  pub chain_attempts : ℕ

unfoldable pub is_fixed_chain : ChainSettings → Bool
is_fixed_chain s = not (is_empty s.chain_links) || not (is_empty s.chain_file)

abbrev pub rotation_of : ChainSettings → Text
rotation_of s = if is_empty s.chain_rotation then bytes "none" else s.chain_rotation

module _ {P : Type 0} (c : Core P) where
  -- An instance that runs until the context is done: nothing else wakes it.
  unfoldable pub run_still :
      Swap → List P → List (ChainWake × ChainInput P) → Fallible (ChainRotor P)
  unfolding start_chain run_chain
  run_still s hops es = elim (start_chain c.get_link (bytes "") s hops) [
    | err e ↦ err e
    | ok r ↦ ok (run_chain (λ i q. q) es r)
  ]

  unfoldable pub run_fixed_chain :
      (Text → List Text)
      → ChainSettings
      → ChainInput P
      → List (ChainWake × ChainInput P)
      → Fallible (ChainRotor P)
  unfolding run_still
  run_fixed_chain scan_lines s i es =
      elim (resolve_fixed_chain scan_lines c s.chain_links s.chain_file) [
        | err e ↦ err (bytes "failed to resolve fixed chain: " ++ e)
        | ok hops ↦ run_still i.swap hops es
      ]

  unfoldable pub run_no_rotation :
      List Text
      → ChainSettings
      → ChainInput P
      → List (ChainWake × ChainInput P)
      → Fallible (ChainRotor P)
  unfolding run_still
  run_no_rotation pool s i es =
      elim (select_chain_from_pool (i.worlds 0).shuffle c pool (hops_for s.chain_hops)) [
        | err e ↦ err (bytes "failed to select chain from pool: " ++ e)
        | ok hops ↦ run_still i.swap hops es
      ]

  unfoldable pub run_chain_mode :
      (Text → List Text)
      → List Text
      → ChainSettings
      → ChainInput P
      → List (ChainWake × ChainInput P)
      → Fallible (ChainRotor P)
  unfolding is_fixed_chain run_fixed_chain run_no_rotation run_exit_rotation run_full_rotation
  run_chain_mode scan_lines pool s i es =
      if is_fixed_chain s
      then run_fixed_chain scan_lines s i es
      else if eq_text (rotation_of s) (bytes "none")
      then run_no_rotation pool s i es
      else if eq_text (rotation_of s) (bytes "exit")
      then run_exit_rotation c pool s.chain_hops i es
      else if eq_text (rotation_of s) (bytes "full")
      then run_full_rotation c pool s.chain_hops s.chain_attempts i es
      else err (bytes "unknown chain rotation mode: " ++ rotation_of s)
