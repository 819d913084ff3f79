-- ===== src/Rotation/Strikes.antt =====
-- What strikes do, over one rotation and over many.
use Prim.Native.Nat.{pred}
use xray_knife.Prelude.{
  ℕ, zero, suc, ◌+◌, ◌*◌, ◌≤◌, ◌<◌, ◌≡◌, ◌≢◌, refl, ap, ◌∙◌, true, List, [], none, some, arith,
  if◌then◌else◌, leb, In,
}
use xray_knife.Text.{Text, eq_text}
use xray_knife.Text.Equality.{eq_text_refl, is_empty_iff}
use xray_knife.Dict.{lookup, lookup-insert}
use xray_knife.Rotation.Blacklist.{
  Blacklist, Settings, second, strike_entry, entry_of, record_strike, filter_blacklisted,
}
use xray_knife.Rotation.Filtering.{admits, filter_blacklisted-keeps, filter_blacklisted-fresh}

-- A strike changes the entry of its link alone: one more strike, and a time limit from the strike
-- that reaches the threshold, which later strikes do not move.
pub lookup-record_strike :
    (s : Settings) (now : ℕ) (link other : Text) (bl : Blacklist)
    → s.blacklist_strikes ≢ 0
    → link ≢ []
    → lookup other (record_strike s now link bl) ≡ (
        if eq_text link other
        then some (strike_entry s now (entry_of link bl))
        else lookup other bl)
unfolding record_strike
lookup-record_strike s now link other bl on full =
    ground (
      arith,
      is_empty_iff link,
      lookup-insert link other (strike_entry s now (entry_of link bl)) bl,
    )

-- The first strike, below a threshold of at least two.
first_strike :
    (s : Settings) (now : ℕ) (link : Text) (bl : Blacklist)
    → 2 ≤ s.blacklist_strikes
    → link ≢ []
    → lookup link bl ≡ none
    → lookup link (record_strike s now link bl) ≡ some (record { strikes = 1; until = 0 })
unfolding strike_entry entry_of
first_strike s now link bl many full gone =
    lookup-record_strike s now link link bl (ground arith) full
    ∙ rw (eq_text_refl link, gone, entry_of) (ground arith)

module _ (s : Settings) (available : List Text) (link : Text) (clock : ℕ → ℕ) where
  -- The blacklist after `n` rotations in each of which the link failed its test.
  pub after_failures : ℕ → Blacklist
  after_failures zero = []
  after_failures (suc n) =
      record_strike s (clock n) link (filter_blacklisted s (clock n) available (after_failures n)).1

  module _ (many : 2 ≤ s.blacklist_strikes) (full : link ≢ []) (listed : In link available)
      (started : (n : ℕ) → 0 < clock n) where
    after_failures-admits : (n : ℕ) → admits (clock n) link (after_failures n) ≡ true
    unfolding after_failures admits lookup
    after_failures-admits zero = refl
    after_failures-admits (suc n) =
        let kept =
          filter_blacklisted-keeps s (clock n) available (after_failures n) link listed
            (after_failures-admits n) in
        let gone =
          filter_blacklisted-fresh s (clock n) available (after_failures n) link (ground arith)
            kept in
        let struck =
          first_strike s (clock n) link
            (filter_blacklisted s (clock n) available (after_failures n)).1 many full gone in
        rw (admits, struck) (ground (arith, started (suc n)))

-- With a threshold of two strikes or more, a link that fails its test in every rotation is let
-- through to be tested again in every rotation, however many there were.
pub failing_link_tested_again :
    (s : Settings) (available : List Text) (link : Text) (clock : ℕ → ℕ)
    → 2 ≤ s.blacklist_strikes
    → link ≢ []
    → In link available
    → ((n : ℕ) → 0 < clock n)
    → (n : ℕ)
    → In link (filter_blacklisted s (clock n) available (after_failures s available link clock n)).0
failing_link_tested_again s available link clock many full listed started n =
    filter_blacklisted-keeps s (clock n) available (after_failures s available link clock n) link
      listed (after_failures-admits s available link clock many full listed started n)

-- Strikes with no filter between them.
module _ (s : Settings) (link : Text) (clock : ℕ → ℕ) where
  pub after_strikes : ℕ → Blacklist
  after_strikes zero = []
  after_strikes (suc n) = record_strike s (clock n) link (after_strikes n)

  -- The time limit after `n` strikes: set by the strike that reaches the threshold.
  abbrev pub limit_after : ℕ → ℕ
  limit_after n =
      if leb s.blacklist_strikes n
      then clock (pred s.blacklist_strikes) + s.blacklist_duration * second
      else 0

strike_limit :
    (s : Settings) (link : Text) (clock : ℕ → ℕ) (n : ℕ)
    → ((k : ℕ) → 0 < clock k)
    → strike_entry s (clock n) (record { strikes = n; until = limit_after s link clock n })
      ≡ record { strikes = suc n; until = limit_after s link clock (suc n) }
unfolding strike_entry
strike_limit s link clock n started =
    let at_threshold : s.blacklist_strikes ≡ suc n → pred s.blacklist_strikes ≡ n =
      λ e. omega arith in
    ground (arith, started (pred s.blacklist_strikes), at_threshold)

entry_of-record_strike :
    (s : Settings) (now : ℕ) (link : Text) (bl : Blacklist)
    → s.blacklist_strikes ≢ 0
    → link ≢ []
    → entry_of link (record_strike s now link bl) ≡ strike_entry s now (entry_of link bl)
unfolding entry_of
entry_of-record_strike s now link bl on full =
    ground (arith, lookup-record_strike s now link link bl on full, eq_text_refl link)

-- With blacklisting on and a running clock, `n` strikes in a row count `n`, and the link has a
-- time limit from the strike that reached the threshold, and none before it.
pub strikes_in_a_row :
    (s : Settings) (link : Text) (clock : ℕ → ℕ)
    → s.blacklist_strikes ≢ 0
    → link ≢ []
    → ((n : ℕ) → 0 < clock n)
    → (n : ℕ)
    → entry_of link (after_strikes s link clock n)
      ≡ record { strikes = n; until = limit_after s link clock n }
unfolding after_strikes
strikes_in_a_row s link clock on full started zero = unfold entry_of lookup in ground arith
strikes_in_a_row s link clock on full started (suc n) =
    entry_of-record_strike s (clock n) link (after_strikes s link clock n) on full
    ∙ ap (strike_entry s (clock n)) (strikes_in_a_row s link clock on full started n)
    ∙ strike_limit s link clock n started
