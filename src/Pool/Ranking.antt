-- ===== src/Pool/Ranking.antt =====
-- pkg/http/httptester.go: the order of the results of a test, `Less` of ConfigResults. Speeds are
-- floats that are never negative, by their bit patterns, as in a `Result`.
use xray_knife.Prelude.{ℕ, ◌<◌, ◌≡◌, Bool, true, false, not, if◌then◌else◌, ltb, ◌==◌, arith}
use xray_knife.Prelude.Int.{ℤ, pos, negsuc, is_neg}
use xray_knife.Examiner.Types.{Result}

abbrev max_int64 : ℕ
max_int64 = 9223372036854775807

-- A delay, a negative one as infinite.
unfoldable pub rank_delay : ℤ → ℕ
rank_delay (pos d) = d
rank_delay (negsuc d) = max_int64

unfoldable pub less : {P : Type 0} → Result P → Result P → Bool
unfolding rank_delay
less a b =
    if not (rank_delay a.delay == rank_delay b.delay)
    then ltb (rank_delay a.delay) (rank_delay b.delay)
    else if not (a.download_speed == b.download_speed)
    then ltb b.download_speed a.download_speed
    else ltb b.upload_speed a.upload_speed

-- The order is one that sorting may rely on: no result is before itself, being before is
-- transitive, and so is being neither before nor after. A result with a measured delay, below
-- the greatest 64-bit value, is before every result with a negative one.
pub less_lem :
    {P : Type 0} (a b c : Result P)
    → (less a a ≡ false)
      × (less a b ≡ true → less b c ≡ true → less a c ≡ true)
      × (less a b ≡ false
          → less b a ≡ false
          → less b c ≡ false
          → less c b ≡ false
          → less a c ≡ false)
      × ((d : ℕ)
          → a.delay ≡ pos d
          → d < 9223372036854775807
          → is_neg b.delay ≡ true
          → less a b ≡ true)
unfolding less rank_delay
less_lem a b c = (
  ground arith,
  λ h k. ground (arith, h, k),
  λ h i j k. ground (arith, h, i, j, k),
  λ d e l n. ground (arith, e, l, n),
)
