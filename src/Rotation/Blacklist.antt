-- ===== src/Rotation/Blacklist.antt =====
-- pkg/proxy/service.go: strikes against a link, and the filter that keeps blacklisted links out of
-- a batch. A time is the number of nanoseconds since Go's zero time, so `IsZero` is a test for 0.
use xray_knife.Prelude.{
  ℕ, suc, ◌+◌, ◌*◌, Bool, true, false, ◌||◌, ◌&&◌, List, [], ◌∷◌, Option, none, some, if◌then◌else◌,
  ltb, leb, ◌==◌, length,
}
use xray_knife.Text.{Text, is_empty, eq_text}
use xray_knife.Dict.{lookup, insert, erase}

pub record Entry : Type 0 where
  pub strikes : ℕ
  pub until : ℕ

abbrev pub Blacklist : Type 0
Blacklist = List (Text × Entry)

-- The settings that the search for an outbound reads; durations in seconds.
pub record Settings : Type 0 where
  pub config_links : List Text
  pub blacklist_strikes : ℕ
  pub blacklist_duration : ℕ
  pub batch_size : ℕ
  pub concurrency : ℕ

abbrev pub second : ℕ
second = 1000000000

-- The entry with one more strike, at time `now`.
unfoldable pub strike_entry : Settings → ℕ → Entry → Entry
strike_entry s now entry = record {
  strikes = suc entry.strikes;
  until =
      if leb s.blacklist_strikes (suc entry.strikes) && entry.until == 0
      then now + s.blacklist_duration * second
      else entry.until;
}

unfoldable pub entry_of : Text → Blacklist → Entry
entry_of link bl = elim (lookup link bl) [
  | some entry ↦ entry
  | none ↦ record { strikes = 0; until = 0 }
]

unfoldable pub record_strike : Settings → ℕ → Text → Blacklist → Blacklist
unfolding strike_entry entry_of
record_strike s now link bl =
    if s.blacklist_strikes == 0 || is_empty link
    then bl
    else insert link (strike_entry s now (entry_of link bl)) bl

-- An entry whose time has passed; the zero time always has.
unfoldable pub is_expired : ℕ → Option Entry → Bool
is_expired now none = false
is_expired now (some entry) = ltb entry.until now

unfoldable pub is_absent : Option Entry → Bool
is_absent none = true
is_absent (some entry) = false

-- The loop that filters the available links; an entry whose time has passed is deleted.
unfoldable pub filter_links : ℕ → List Text → Blacklist → List Text × Blacklist
unfolding is_expired is_absent
filter_links now [] bl = ([], bl)
filter_links now (link ∷ links) bl =
    let expired = is_expired now (lookup link bl) in
    let rest = filter_links now links (if expired then erase link bl else bl) in
    if expired || is_absent (lookup link bl) then (link ∷ rest.0, rest.1) else rest

-- The filter with the way out when nothing is left.
unfoldable pub filter_blacklisted : Settings → ℕ → List Text → Blacklist → List Text × Blacklist
unfolding filter_links
filter_blacklisted s now available bl =
    if s.blacklist_strikes == 0
    then (available, bl)
    else let (filtered, bl') = filter_links now available bl in
      if length filtered == 0 then (available, []) else (filtered, bl')

-- Removes the first occurrence of the previous outbound.
unfoldable pub drop_last_used : Text → List Text → List Text
drop_last_used last [] = []
drop_last_used last (link ∷ links) =
    let rest = drop_last_used last links in if eq_text link last then links else link ∷ rest

unfoldable pub candidates_of : Text → List Text → List Text
unfolding drop_last_used
candidates_of last links = if is_empty last then links else drop_last_used last links
