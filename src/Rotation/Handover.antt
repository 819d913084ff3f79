-- ===== src/Rotation/Handover.antt =====
-- The one port, as the search for an outbound releases and takes it.
use mathlib.Core.Path.{subst}
use xray_knife.Prelude.{
  map, ◌≡◌, ◌∙◌, Bool, true, false, not, ◌||◌, ◌&&◌, List, [], ◌∷◌, ◌++◌, Option, none, some, arith,
  if◌then◌else◌, Bool-cases, Option-cases, inl, inr,
}
use xray_knife.Text.{Text}
use xray_knife.Examiner.Types.{Result, is_passed}
use xray_knife.Rotation.Blacklist.{Settings, Blacklist, record_strike}
use xray_knife.Rotation.Candidates.{
  PortEvent, released, started, start_failed, World, Attempt, has_protocol, handover, try_results,
  find_and_start_working_config, strike_failures, batch_of,
}

-- Whether an instance listens after the events; `none` if one tried to start while another
-- listened.
pub replay : Bool → List PortEvent → Option Bool
replay live [] = some live
replay live (released ∷ es) = replay false es
replay live (started _ ∷ es) = if live then none else replay true es
replay live (start_failed _ ∷ es) = if live then none else replay false es

abbrev pub is_chosen : {A : Type 0} → Option A → Bool
is_chosen none = false
is_chosen (some _) = true

-- Whether an instance listens before the events of an attempt, and after them.
abbrev Accounts : {P : Type 0} → Bool → Bool → Attempt P → Type 0
Accounts live gone a =
    replay (live && not gone) a.events ≡ some (is_chosen a.chosen || (live && not a.port_released))

module _ {P : Type 0} (s : Settings) (w : World P) (can_release live : Bool) where
  replay-handover :
      (gone : Bool) (es : List PortEvent)
      → (live ≡ true → can_release ≡ true)
      → replay (live && not gone) (handover s w can_release gone ++ es) ≡ replay false es
  unfolding handover replay
  replay-handover gone es h = ground arith

  off :
      (gone : Bool)
      → (live ≡ true → can_release ≡ true)
      → (live && not (gone || can_release)) ≡ false
  off gone h = ground arith

  -- An instance listens before only if it can be released, and not once it was.
  try_results-Accounts :
      (rs : List (Result P)) (gone : Bool) (bl : Blacklist)
      → (live ≡ true → can_release ≡ true)
      → Accounts live gone (try_results s w can_release rs gone bl)
  unfolding try_results replay
  try_results-Accounts [] gone bl h = ground arith
  try_results-Accounts (r ∷ rs) gone bl h =
      let bl' = record_strike s (w.strike_time r.config_link) r.config_link bl in
      elim (Bool-cases (not (is_passed r.status) || not (has_protocol r))) [
        | inl skip ↦ rw skip (try_results-Accounts rs gone bl h)
        | inr fit ↦ elim (Option-cases (w.make_instance r.config_link)) [
          | inr (why, e) ↦ rw (fit, e) (try_results-Accounts rs gone bl' h)
          | inl e ↦ elim (Option-cases (w.start r.config_link)) [
            | inl up ↦ rw (fit, e, up) (replay-handover gone (started r.config_link ∷ []) h)
            | inr (why, f) ↦
                let ih = try_results-Accounts rs (gone || can_release) bl' h in
                rw (fit, e, f)
                  (replay-handover gone (start_failed r.config_link ∷ _) h
                    ∙ (rw (off gone h) at ih))
          ]
        ]
      ]

-- For every outcome of the tests and of the attempts to build and start instances: if the search
-- may release the port wherever an instance listens, it never starts an instance while another
-- listens. In the end one listens exactly when a link was chosen, or when one listened before and
-- the port was not released.
pub find_and_start_one_listener :
    {P : Type 0} (s : Settings) (w : World P) (can_release live : Bool) (last : Text)
    (bl : Blacklist)
    → (live ≡ true → can_release ≡ true)
    → let a = find_and_start_working_config s w can_release last bl in
      replay live a.events ≡ some (is_chosen a.chosen || (live && not a.port_released))
unfolding find_and_start_working_config replay
find_and_start_one_listener s w can_release live last bl h = elim (Bool-cases w.cancelled) [
  | inl stop ↦ rw stop (ground arith)
  | inr go ↦
      let (links, bl') = batch_of s w can_release last bl in
      let results = w.sort (map w.examine links) in
      let a = try_results s w can_release results false (strike_failures s w results bl') in
      let accounts =
        try_results-Accounts s w can_release live results false (strike_failures s w results bl')
          h in
      rw go (
        subst
          (λ (b : Bool).
            replay b a.events ≡ some (is_chosen a.chosen || (live && not a.port_released)))
          (no_release live) accounts)
]
  where
    no_release : (b : Bool) → (b && not false) ≡ b
    no_release b = ground arith
