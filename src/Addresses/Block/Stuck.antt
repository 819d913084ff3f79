-- ===== src/Addresses/Block/Stuck.antt =====
-- The loop over the whole IPv4 space.
use xray_knife.Prelude.{
  ℕ, zero, suc, ◌-◌, ◌*◌, ◌^◌, ◌≡◌, refl, sym, ap, ◌∙◌, true, arith, length, none,
}
use xray_knife.Addresses.{
  Ip, IsIp, Cidr, IsCidr, mask, network, in_subnet, enumerate, subnet_ips, increment_ip,
}
use xray_knife.Addresses.Value.{value, value-lt, length-increment, increment-IsIp}
use xray_knife.Addresses.Mask.{mask-zero}
use xray_knife.Addresses.Block.{four_bytes-AvoidsMapped, in_subnet_iff}
use xray_knife.Addresses.Block.Walk.{network_bytes, network_length}

-- In four bytes with an empty prefix, every address passes the test of the loop.
all_inside :
    (c : Cidr) (ip : Ip)
    → IsCidr c
    → c.ones ≡ 0
    → length c.ip ≡ 4
    → IsIp ip
    → length ip ≡ 4
    → in_subnet c ip ≡ true
unfolding network
all_inside c ip valid empty four h len =
    (in_subnet_iff c valid (four_bytes-AvoidsMapped c four) ip h (len ∙ sym four)).1 (
      omega (arith, network_zero),
      omega (
        arith,
        network_zero,
        value-lt ip h,
        ap (λ (n : ℕ). 256 ^ n) len,
        ap (λ (n : ℕ). 2 ^ n) (whole_space (length c.ip) c.ones four empty),
      ),
    )
  where
    network_zero : value (mask c.ones c.ip) ≡ 0
    network_zero = ap (λ n. value (mask n c.ip)) empty ∙ mask-zero c.ip (valid.0)

    whole_space : (n o : ℕ) → n ≡ 4 → o ≡ 0 → 8 * n - o ≡ 32
    whole_space n o e f = omega arith

enumerate_stuck :
    (fuel : ℕ) (c : Cidr) (ip : Ip)
    → IsCidr c
    → c.ones ≡ 0
    → length c.ip ≡ 4
    → IsIp ip
    → length ip ≡ 4
    → enumerate fuel (in_subnet c) increment_ip ip ≡ none
unfolding enumerate
enumerate_stuck zero c ip valid empty four h len = refl
enumerate_stuck (suc fuel) c ip valid empty four h len =
    rw
      (
        all_inside c ip valid empty four h len,
        enumerate_stuck fuel c (increment_ip ip) valid empty four (increment-IsIp ip h)
            (length-increment ip ∙ len),
      )
      refl

-- The loop over the whole IPv4 space does not end: the increment wraps, and the test still holds.
pub subnet_ips_stuck :
    (fuel : ℕ) (c : Cidr)
    → IsCidr c
    → c.ones ≡ 0
    → length c.ip ≡ 4
    → subnet_ips fuel increment_ip c ≡ none
unfolding subnet_ips
subnet_ips_stuck fuel c valid empty four =
    enumerate_stuck fuel c (network c) valid empty four
      (network_bytes c valid (four_bytes-AvoidsMapped c four))
      (network_length c valid (four_bytes-AvoidsMapped c four) ∙ four)
