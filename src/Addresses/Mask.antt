-- ===== src/Addresses/Mask.antt =====
-- Which addresses a subnet contains, on the numbers they stand for.
use mathlib.Core.Path.{subst}
use native.Mathlib.Nat.{zero-mul, mul_assoc, mul-div_left}
use xray_knife.Prelude.{
  ℕ, ◌+◌, ◌-◌, ◌*◌, ◌/◌, ◌%◌, ◌^◌, ◌≤◌, ◌<◌, ◌≡◌, refl, sym, ap, ◌∙◌, inl, inr, true, [], ◌∷◌,
  arith, length, leb, Bool-cases,
}
use xray_knife.Addresses.{Ip, IsIp, mask, mask_byte, eq_ip}
use xray_knife.Addresses.Value.{value, value-lt}
use xray_knife.Addresses.Powers.{
  above_blocks, split_lt, split_blocks, pow2-pos, pow2-add, pow256_as_pow2,
}

pub eq_ip_self : (ip : Ip) → eq_ip ip ip ≡ true
unfolding eq_ip
eq_ip_self [] = refl
eq_ip_self (b ∷ ip) = ground (arith, eq_ip_self ip)

pub eq_ip-eq : (ip jp : Ip) → eq_ip ip jp ≡ true → ip ≡ jp
unfolding eq_ip
eq_ip-eq [] [] h = refl
eq_ip-eq [] (c ∷ jp) h = ground arith
eq_ip-eq (b ∷ ip) [] h = ground arith
eq_ip-eq (b ∷ ip) (c ∷ jp) h = ground (arith, eq_ip-eq ip jp)

pub length-mask : (ones : ℕ) (ip : Ip) → length (mask ones ip) ≡ length ip
unfolding mask
length-mask ones [] = refl
length-mask ones (b ∷ ip) = omega (arith, length-mask (ones - 8) ip)

mask_byte-mask_byte : (ones b : ℕ) → mask_byte ones (mask_byte ones b) ≡ mask_byte ones b
mask_byte-mask_byte ones b = ground (arith, mul-div_left (b / 2 ^ (8 - ones)) (pow2-pos (8 - ones)))

pub mask-mask : (ones : ℕ) (ip : Ip) → mask ones (mask ones ip) ≡ mask ones ip
unfolding mask
mask-mask ones [] = refl
mask-mask ones (b ∷ ip) = rw (mask_byte-mask_byte, mask-mask (ones - 8) ip) refl

no_bits : (b : ℕ) → b < 256 → b / 256 * 256 ≡ 0
no_bits b h = omega arith

pub mask-zero : (ip : Ip) → IsIp ip → value (mask 0 ip) ≡ 0
unfolding mask
mask-zero [] h = refl
mask-zero (b ∷ ip) h = omega (
  arith,
  mask-zero ip (h.1),
  h.0,
  zero-mul (256 ^ length (mask 0 ip)),
  ap (λ (t : ℕ). t * 256 ^ length (mask 0 ip)) (no_bits b (h.0)),
)

-- The address is in block `q` of the blocks of size `size`, and `m` starts it.
pub record InBlock (size : ℕ) (ip m : Ip) : Type 0 where
  pub block : ℕ
  pub offset : ℕ
  pub inside : offset < size
  pub address : value ip ≡ block * size + offset
  pub start : value m ≡ block * size

mask_byte_whole : (ones b : ℕ) → 8 ≤ ones → mask_byte ones b ≡ b
mask_byte_whole ones b h = ground arith

mask_byte_split : (ones b : ℕ) → ones < 8 → mask_byte ones b ≡ b / 2 ^ (8 - ones) * 2 ^ (8 - ones)
mask_byte_split ones b h = ground arith

-- The first byte is in the prefix as a whole.
whole_byte :
    (ones b : ℕ) (ip : Ip)
    → 8 ≤ ones
    → ones ≤ 8 * length (b ∷ ip)
    → InBlock (2 ^ (8 * length ip - (ones - 8))) ip (mask (ones - 8) ip)
    → InBlock (2 ^ (8 * length (b ∷ ip) - ones)) (b ∷ ip) (mask ones (b ∷ ip))
unfolding mask
whole_byte ones b ip e k i =
    subst (λ (t : ℕ). InBlock (2 ^ t) (b ∷ ip) (mask ones (b ∷ ip))) same_size
      (record {
        block = b * 2 ^ (ones - 8) + i.block;
        offset = i.offset;
        inside = i.inside;
        address = above_blocks b _ (value ip) _ size i.block i.offset byte_size i.address;
        start = rw length-mask (
            omega (
              arith,
              ap (λ (x : ℕ). x * 256 ^ length ip) (mask_byte_whole ones b e),
              i.start,
              above_blocks b _ (i.block * size) _ size i.block 0 byte_size (omega arith),
            ));
      })
  where
    size : ℕ
    size = 2 ^ (8 * length ip - (ones - 8))

    same_size : 8 * length ip - (ones - 8) ≡ 8 * length (b ∷ ip) - ones
    same_size = omega arith

    byte_size : 256 ^ length ip ≡ 2 ^ (ones - 8) * size
    byte_size =
        pow256_as_pow2 (length ip)
        ∙ ap (λ (t : ℕ). 2 ^ t) (omega arith)
        ∙ pow2-add (ones - 8) (8 * length ip - (ones - 8))

-- The prefix ends in the first byte.
split_byte :
    (ones b : ℕ) (ip : Ip)
    → IsIp (b ∷ ip)
    → ones < 8
    → InBlock (2 ^ (8 * length (b ∷ ip) - ones)) (b ∷ ip) (mask ones (b ∷ ip))
unfolding mask
split_byte ones b ip h e =
    subst (λ (t : ℕ). InBlock t (b ∷ ip) (mask ones (b ∷ ip))) (sym size)
      (record {
        block = b / m;
        offset = b % m * 256 ^ length ip + value ip;
        inside = split_lt b _ (value ip) m (pow2-pos (8 - ones)) (value-lt ip (h.1));
        address = split_blocks b _ (value ip) m;
        start = rw length-mask (
            omega (
              arith,
              ap (λ (x : ℕ). x * 256 ^ length ip) (mask_byte_split ones b e),
              ap (λ (t : ℕ). value (mask t ip)) none_left,
              mask-zero ip (h.1),
              mul_assoc (b / m) m (256 ^ length ip),
            ));
      })
  where
    m : ℕ
    m = 2 ^ (8 - ones)

    none_left : ones - 8 ≡ 0
    none_left = omega arith

    size : 2 ^ (8 * length (b ∷ ip) - ones) ≡ m * 256 ^ length ip
    size =
        ap (λ (t : ℕ). 2 ^ t) (omega arith)
        ∙ pow2-add (8 - ones) (8 * length ip)
        ∙ ap (λ t. m * t) (sym (pow256_as_pow2 (length ip)))

pub mask-InBlock :
    (ones : ℕ) (ip : Ip)
    → IsIp ip
    → ones ≤ 8 * length ip
    → InBlock (2 ^ (8 * length ip - ones)) ip (mask ones ip)
unfolding mask
mask-InBlock ones [] h k = record {
  block = 0;
  offset = 0;
  inside = pow2-pos (0 - ones);
  address = omega arith;
  start = omega arith;
}
mask-InBlock ones (b ∷ ip) h k = elim (Bool-cases (leb 8 ones)) [
  | inl e ↦
      whole_byte ones b ip (ground arith) (ground arith)
        (mask-InBlock (ones - 8) ip (h.1) (omega arith))
  | inr e ↦ split_byte ones b ip h (ground arith)
]
