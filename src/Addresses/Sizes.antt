-- ===== src/Addresses/Sizes.antt =====
-- The size of a subnet that the progress bar is given, against the loop over its addresses.
use native.Mathlib.Nat.{mul-mod_left, pow-le-pow_right, mod-eq_of_lt}
use xray_knife.Prelude.{
  ℕ, zero, suc, ◌-◌, ◌*◌, ◌^◌, ◌%◌, ◌≤◌, ◌<◌, ◌≡◌, refl, ap, ◌∙◌, List, [], ◌∷◌, arith, length,
  some, map, lt→ltb,
}
use xray_knife.Prelude.Int.{pos}
use xray_knife.Addresses.{
  Ip, Cidr, IsCidr, AvoidsMapped, bits, subnet_ips, increment_ip, size_of, to_int,
}
use xray_knife.Addresses.Powers.{pow2-lt, pow2-add}
use xray_knife.Addresses.Value.{value}
use xray_knife.Addresses.Block.{block_size}
use xray_knife.Addresses.Block.Walk.{range, subnet_ips-ends}

to_int-small : (w : ℕ) → w < 2 ^ 63 → to_int w ≡ pos w
unfolding to_int
to_int-small w h = rw (lt→ltb w (2 ^ 63) h) refl

length-range : (a n : ℕ) → length (range a n) ≡ n
length-range a zero = refl
length-range a (suc n) = omega (arith, length-range (suc a) n)

length-map : (ips : List Ip) → length (map value ips) ≡ length ips
length-map [] = refl
length-map (ip ∷ ips) = omega (arith, length-map ips)

size_of-small : (c : Cidr) → bits c - c.ones < 63 → size_of c ≡ pos (block_size c)
unfolding size_of
size_of-small c h =
    ap to_int (mod-eq_of_lt (pow2-lt (bits c - c.ones) 64 (omega arith)))
    ∙ to_int-small (block_size c) (pow2-lt (bits c - c.ones) 63 h)

-- For a subnet with a prefix and fewer than 63 host bits, none of whose addresses is an IPv4 address
-- in sixteen bytes, the size reported is the number of addresses that the loop lists.
pub size_of-subnet_ips :
    (c : Cidr) (fuel : ℕ)
    → IsCidr c
    → AvoidsMapped c
    → 0 < c.ones
    → bits c - c.ones < 63
    → block_size c < fuel
    → (ips : List Ip) × (subnet_ips fuel increment_ip c ≡ some ips) × (size_of c ≡ pos (length ips))
size_of-subnet_ips c fuel valid plain some_prefix small enough =
    let walk = subnet_ips-ends c valid plain fuel some_prefix enough in
    (
      walk.0,
      walk.1,
      size_of-small c small
          ∙ ap pos (
              omega (
                arith,
                ap (λ (ns : List ℕ). length ns) (walk.3),
                length-range _ (block_size c),
                length-map (walk.0),
              )),
    )

-- From 64 host bits on, as in every IPv6 subnet up to /64, the shift leaves nothing of the word:
-- the size reported is 0, whatever the subnet holds.
pub size_of-overflow :
    (c : Cidr) → 64 ≤ bits c - c.ones → (size_of c ≡ pos 0) × (2 ^ 64 ≤ block_size c)
unfolding size_of to_int
size_of-overflow c h = (
  ap to_int (ap (λ n. n % 2 ^ 64) split ∙ mul-mod_left (2 ^ (bits c - c.ones - 64)) (2 ^ 64)),
  pow-le-pow_right {n = 2} (omega arith) h,
)
  where
    split : 2 ^ (bits c - c.ones) ≡ 2 ^ (bits c - c.ones - 64) * 2 ^ 64
    split = ap (λ (n : ℕ). 2 ^ n) (omega arith) ∙ pow2-add (bits c - c.ones - 64) 64
