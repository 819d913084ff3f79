-- ===== src/Rotation/Candidates.antt =====
-- pkg/proxy/service.go: `findAndStartWorkingConfig`, from the pool of links to the instance that
-- listens. What it does to the one port is a list of events.
use xray_knife.Prelude.{
  ℕ, ◌/◌, Bool, true, false, not, ◌||◌, ◌&&◌, List, [], ◌∷◌, ◌++◌, map, take, Option, none, some,
  if◌then◌else◌, ltb, ◌==◌, length,
}
use xray_knife.Text.{Text, is_empty}
use xray_knife.Examiner.Types.{is_passed, Result}
use xray_knife.Rotation.Blacklist.{
  Blacklist, Settings, record_strike, filter_blacklisted, candidates_of,
}

-- The number of links that a batch takes of `n`.
unfoldable pub batch_size_for : Settings → ℕ → ℕ
batch_size_for s n =
    let auto = n / 10 in
    let size =
      if s.batch_size == 0
      then if ltb auto 10 then 10 else if ltb 200 auto then 200 else auto
      else s.batch_size in
    if ltb n size then n else size

unfoldable pub concurrency_for : Settings → ℕ → ℕ
concurrency_for s batch =
    if s.concurrency == 0 then if ltb 50 batch then 50 else batch else s.concurrency

-- `released`: the previous instance gave up the port. `started` and `start_failed`: a new instance
-- tried to take it; one that failed is closed at once.
pub data PortEvent : Type 0 where
  released : PortEvent
  started start_failed : Text → PortEvent

-- The core's answers for the candidate with a given link, and the times at which links are struck.
pub record World (P : Type 0) : Type 0 where
  pub shuffle : List Text → List Text
  pub examine : Text → Result P
  pub sort : List (Result P) → List (Result P)
  pub make_instance : Text → Option Text  -- the error, if any
  pub start : Text → Option Text  -- the error, if any
  pub now : ℕ
  pub strike_time : Text → ℕ
  pub cancelled : Bool  -- the context is done after the tests

pub record Attempt (P : Type 0) : Type 0 where
  pub chosen : Option (Result P)
  pub port_released : Bool
  pub blacklist : Blacklist
  pub events : List PortEvent

unfoldable pub has_protocol : {P : Type 0} → Result P → Bool
has_protocol r = elim r.protocol [ none ↦ false | some p ↦ true ]

-- The strikes against what the tests did not pass.
unfoldable pub strike_failures :
    {P : Type 0} → Settings → World P → List (Result P) → Blacklist → Blacklist
unfolding is_passed
strike_failures s w [] bl = bl
strike_failures s w (res ∷ rest) bl = strike_failures s w rest (
    if not (is_passed res.status) && not (is_empty res.config_link)
    then record_strike s (w.strike_time res.config_link) res.config_link bl
    else bl)

module _ {P : Type 0} (s : Settings) (w : World P) (can_release : Bool) where
  strike : Text → Blacklist → Blacklist
  strike link bl = record_strike s (w.strike_time link) link bl

  -- The events before a Start: the previous instance gives up the port, once.
  unfoldable pub handover : Bool → List PortEvent
  handover port_released = if not port_released && can_release then released ∷ [] else []

  -- The loop over the sorted results.
  unfoldable pub try_results : List (Result P) → Bool → Blacklist → Attempt P
  unfolding strike handover is_passed has_protocol
  try_results [] port_released bl = record {
    chosen = none;
    port_released = port_released;
    blacklist = bl;
    events = [];
  }
  try_results (res ∷ rest) port_released bl =
      let link = res.config_link in
      let skip = try_results rest port_released bl in
      let unmade = try_results rest port_released (strike link bl) in
      let after = port_released || can_release in
      let unstarted = try_results rest after (strike link bl) in
      if not (is_passed res.status) || not (has_protocol res)
      then skip
      else elim (w.make_instance link) [
        | some why ↦ unmade
        | none ↦ elim (w.start link) [
          | some why ↦ record unstarted {
            events = handover port_released ++ start_failed link ∷ unstarted.events;
          }
          | none ↦ record {
            chosen = some res;
            port_released = after;
            blacklist = bl;
            events = handover port_released ++ started link ∷ [];
          }
        ]
      ]

  -- The batch: shuffled, without the last outbound and the blacklisted links.
  unfoldable pub batch_of : Text → Blacklist → List Text × Blacklist
  unfolding batch_size_for
  batch_of last bl =
      let (available, bl') =
        filter_blacklisted s w.now (candidates_of last (w.shuffle s.config_links)) bl in
      (take (batch_size_for s (length available)) available, bl')

  unfoldable pub find_and_start_working_config : Text → Blacklist → Attempt P
  unfolding batch_of strike_failures try_results
  find_and_start_working_config last bl =
      let (links, bl') = batch_of last bl in
      if w.cancelled
      then record { chosen = none; port_released = false; blacklist = bl'; events = [] }
      else let results = w.sort (map w.examine links) in
        try_results results false (strike_failures s w results bl')
