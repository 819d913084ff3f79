-- ===== src/Addresses/Block.antt =====
-- The loop over the addresses of a subnet: where it goes and when it ends.
pub mod Mapped
pub mod Walk
pub mod Stuck
use mathlib.Core.Path.{subst}
use native.Mathlib.Nat.{div-mul-le_self}
use xray_knife.Prelude.{
  ℕ, zero, suc, ◌+◌, ◌-◌, ◌*◌, ◌^◌, ◌≤◌, ◌<◌, ◌≡◌, refl, sym, ap, ◌∙◌, ◌⊎◌, inl, inr, ◌↔◌, Bool,
  true, false, List, [], ◌∷◌, arith, length, drop, length-drop, All, leb, Bool-cases, ◌==◌,
}
use xray_knife.Addresses.{
  Ip, IsIp, Cidr, IsCidr, AvoidsMapped, bits, mask, mask_byte, eq_ip, network, is_v4, to4,
  in_subnet,
}
use xray_knife.Addresses.Value.{value, value-lt}
use xray_knife.Addresses.Mask.{InBlock, mask-InBlock, mask-mask, length-mask, eq_ip_self, eq_ip-eq}
use xray_knife.Addresses.Powers.{same_quotient}

-- How many addresses share the prefix.
abbrev pub block_size : Cidr → ℕ
block_size c = 2 ^ (bits c - c.ones)

pub value-injective :
    (ip jp : Ip) → IsIp ip → IsIp jp → length ip ≡ length jp → value ip ≡ value jp → ip ≡ jp
value-injective [] [] h k e v = refl
value-injective [] (c ∷ jp) h k e v = absurd (omega arith)
value-injective (b ∷ ip) [] h k e v = absurd (omega arith)
value-injective (b ∷ ip) (c ∷ jp) h k e v =
    rw
      (
        same_byte,
        value-injective ip jp (h.1) (k.1) same_length (
            omega (
              arith,
              v,
              ap (λ n. b * 256 ^ n) same_length,
              ap (λ x. x * 256 ^ length jp) same_byte,
            )),
      )
      refl
  where
    same_length : length ip ≡ length jp
    same_length = omega arith

    same_byte : b ≡ c
    same_byte =
        same_quotient (256 ^ length jp) b (value ip) c (value jp)
          (omega (arith, value-lt ip (h.1), ap (λ n. 256 ^ n) same_length)) (value-lt jp (k.1))
          (omega (arith, v, ap (λ n. b * 256 ^ n) same_length))

mask-IsIp : (ones : ℕ) (ip : Ip) → IsIp ip → IsIp (mask ones ip)
unfolding mask
mask-IsIp ones [] h = h
mask-IsIp ones (b ∷ ip) h =
    (ground (arith, h.0, div-mul-le_self b (2 ^ (8 - ones))), mask-IsIp (ones - 8) ip (h.1))

length-is_v4 : (ip : Ip) → is_v4 ip ≡ true → length ip ≡ 16
unfolding is_v4
length-is_v4 ip h = ground arith

to4_short : (ip : Ip) → is_v4 ip ≡ true → to4 ip ≡ drop 12 ip
unfolding to4
to4_short ip v = rw (to4, v) refl

to4_long : (ip : Ip) → is_v4 ip ≡ false → to4 ip ≡ ip
unfolding to4
to4_long ip v = rw (to4, v) refl

-- A subnet in four bytes has no address of sixteen.
pub four_bytes-AvoidsMapped : (c : Cidr) → length c.ip ≡ 4 → AvoidsMapped c
four_bytes-AvoidsMapped c h ip e m = ground (arith, length-is_v4 ip)

module _ (c : Cidr) (valid : IsCidr c) (plain : AvoidsMapped c) where
  pub network_block : InBlock (block_size c) c.ip (network c)
  unfolding network
  network_block = mask-InBlock c.ones c.ip (valid.0) (valid.1)

  network-is_v4 : is_v4 (network c) ≡ false
  unfolding network
  network-is_v4 = plain (mask c.ones c.ip) (length-mask c.ones c.ip) (mask-mask c.ones c.ip)

  in_subnet_plain :
      (ip : Ip) → in_subnet c ip ≡ eq_ip (mask c.ones (network c)) (mask c.ones (to4 ip))
  unfolding in_subnet to4
  in_subnet_plain ip = rw (to4, network-is_v4) refl

  in_subnet_long :
      (ip : Ip)
      → is_v4 ip ≡ false
      → in_subnet c ip ≡ eq_ip (mask c.ones (network c)) (mask c.ones ip)
  in_subnet_long ip v =
      in_subnet_plain ip
      ∙ ap (λ jp. eq_ip (mask c.ones (network c)) (mask c.ones jp)) (to4_long ip v)

  -- Four bytes are not sixteen.
  in_subnet_short :
      (ip : Ip) → length ip ≡ length c.ip → is_v4 ip ≡ true → in_subnet c ip ≡ true → ⊥
  unfolding to4 network
  in_subnet_short ip len v t = omega (
    arith,
    length-is_v4 ip v,
    length-mask c.ones c.ip,
    length-mask c.ones (mask c.ones c.ip),
    length-mask c.ones (to4 ip),
    ap (λ (jp : Ip). length jp)
        (eq_ip-eq (mask c.ones (network c)) (mask c.ones (to4 ip)) (sym (in_subnet_plain ip) ∙ t)),
    ap (λ (jp : Ip). length jp) (to4_short ip v),
    length-drop 12 ip,
  )

  -- The addresses of the subnet are those with the same masked bytes.
  in_subnet-mask :
      (ip : Ip) → length ip ≡ length c.ip → (in_subnet c ip ≡ true) ↔ (mask c.ones ip ≡ network c)
  unfolding network
  in_subnet-mask ip len = (
    λ t. elim (Bool-cases (is_v4 ip)) [
      | inl v ↦ absurd (in_subnet_short ip len v t)
      | inr v ↦ sym (eq_ip-eq _ _ (sym (in_subnet_long ip v) ∙ t)) ∙ mask-mask c.ones c.ip
    ],
    λ m.
        in_subnet_long ip (plain ip len m)
        ∙ ap (eq_ip (mask c.ones (mask c.ones c.ip))) (m ∙ sym (mask-mask c.ones c.ip))
        ∙ eq_ip_self (mask c.ones (mask c.ones c.ip)),
  )

  own_block :
      (ip : Ip) → IsIp ip → length ip ≡ length c.ip → InBlock (block_size c) ip (mask c.ones ip)
  own_block ip h len =
      subst (λ (n : ℕ). InBlock (2 ^ (8 * n - c.ones)) ip (mask c.ones ip)) len
        (mask-InBlock c.ones ip h (omega (arith, valid.1, len)))

  -- Two addresses in one block have the same masked bytes.
  same_block :
      (ip : Ip)
      → IsIp ip
      → length ip ≡ length c.ip
      → value (network c) ≤ value ip
      → value ip < value (network c) + block_size c
      → mask c.ones ip ≡ network c
  unfolding network
  same_block ip h len lo hi =
      let n = network_block in
      let i = own_block ip h len in
      let offset = value ip - value (network c) in
      value-injective (mask c.ones ip) (mask c.ones c.ip) (mask-IsIp c.ones ip h)
        (mask-IsIp c.ones c.ip (valid.0))
        (length-mask c.ones ip ∙ len ∙ sym (length-mask c.ones c.ip))
        (i.start
          ∙ ap (λ (q : ℕ). q * block_size c)
              (same_quotient (block_size c) i.block i.offset n.block offset i.inside
                (omega (arith, hi, lo)) (omega (arith, n.start, i.address, lo)))
          ∙ sym n.start)

  -- The test of the loop holds exactly on the block of addresses that starts at the network.
  pub in_subnet_iff :
      (ip : Ip)
      → IsIp ip
      → length ip ≡ length c.ip
      → (in_subnet c ip ≡ true)
        ↔ ((value (network c) ≤ value ip) × (value ip < value (network c) + block_size c))
  in_subnet_iff ip h len =
      let i = own_block ip h len in
      (
        λ t.
            let e = (in_subnet-mask ip len).0 t in
            (
              omega (arith, i.start, i.address, ap value e),
              omega (arith, i.start, i.address, i.inside, ap value e),
            ),
        λ (lo, hi). (in_subnet-mask ip len).1 (same_block ip h len lo hi),
      )
