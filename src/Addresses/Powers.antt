-- ===== src/Addresses/Powers.antt =====
-- Powers of two, and multiples of a block size.
use native.Mathlib.Nat.{
  pow-suc, one-le-pow, mul_assoc, mul-le-mul_right, div-add-mod', mod-lt, add-mul, div-eq_of_lt-le,
  zero-add, pow-le-pow_right, suc-mul, suc-add,
}
use xray_knife.Prelude.{
  ℕ, zero, suc, ◌+◌, ◌*◌, ◌/◌, ◌%◌, ◌^◌, ◌≤◌, ◌<◌, ◌≡◌, refl, sym, ap, ◌∙◌, arith, ltb, ltb→lt,
  Bool-cases, inl, inr,
}

pub pow2-pos : (n : ℕ) → 0 < 2 ^ n
pow2-pos n = omega (arith, one-le-pow n 2)

pub pow2-add : (a b : ℕ) → 2 ^ (a + b) ≡ 2 ^ a * 2 ^ b
pow2-add zero b = omega (arith, ap (λ (t : ℕ). 2 ^ t) (zero-add b))
pow2-add (suc a) b = omega (
  arith,
  pow-suc 2 a,
  pow-suc 2 (a + b),
  pow2-add a b,
  mul_assoc 2 (2 ^ a) (2 ^ b),
  ap (λ (t : ℕ). t * 2 ^ b) (pow-suc2 a),
  ap (λ (t : ℕ). 2 ^ t) (suc-add a b),
)
  where
    pow-suc2 : (n : ℕ) → 2 ^ suc n ≡ 2 * 2 ^ n
    pow-suc2 n = omega (arith, pow-suc 2 n)

pub pow256_as_pow2 : (n : ℕ) → 256 ^ n ≡ 2 ^ (8 * n)
pow256_as_pow2 zero = refl
pow256_as_pow2 (suc n) =
    omega
      (arith, pow-suc 256 n, pow256_as_pow2 n, pow2-add 8 (8 * n), ap (λ t. 2 ^ t) (eight_more n))
  where
    eight_more : (n : ℕ) → 8 * suc n ≡ 8 + 8 * n
    eight_more n = omega arith

pub pow2-lt : (h k : ℕ) → h < k → 2 ^ h < 2 ^ k
pow2-lt h k l =
    omega
      (arith, pow-le-pow_right {n = 2} (omega arith) {i = suc h} {j = k} l, pow-suc 2 h, pow2-pos h)

-- A quotient and a remainder below the divisor are determined.
pub same_quotient : (n p r q s : ℕ) → r < n → s < n → p * n + r ≡ q * n + s → p ≡ q
same_quotient n p r q s hr hs e = sym (quotient p r hr) ∙ ap (λ t. t / n) e ∙ quotient q s hs
  where
    quotient : (q s : ℕ) → s < n → (q * n + s) / n ≡ q
    quotient q s hs = div-eq_of_lt-le n (omega arith) (omega (arith, add-mul q 1 n))

-- A digit `b` above the numeral `v`, whose place has the value `n`: both divided into blocks.
module _ (b n v : ℕ) where
  pub above_blocks :
      (t size q r : ℕ) → n ≡ t * size → v ≡ q * size + r → b * n + v ≡ (b * t + q) * size + r
  above_blocks t size q r e h =
      omega (arith, e, h, ap (λ (x : ℕ). b * x) e, add-mul (b * t) q size, mul_assoc b t size)

  pub split_lt : (m : ℕ) → 0 < m → v < n → b % m * n + v < m * n
  split_lt m h k = omega (
    arith,
    k,
    mul-le-mul_right {m = suc (b % m)} {n = m} n (omega (arith, mod-lt b h)),
    suc-mul (b % m) n,
  )

  pub split_blocks : (m : ℕ) → b * n + v ≡ b / m * (m * n) + (b % m * n + v)
  split_blocks m = omega (
    arith,
    ap (λ (x : ℕ). x * n) (div-add-mod' b m),
    add-mul (b / m * m) (b % m) n,
    mul_assoc (b / m) m n,
  )

-- A block that starts below a multiple of the block size ends there at the latest.
pub block_end : (q n t r : ℕ) → q * n + r < t * n → q * n + n ≤ t * n
block_end q n t r h = elim (Bool-cases (ltb q t)) [
  | inl e ↦ omega (arith, suc-mul q n, mul-le-mul_right {m = suc q} {n = t} n (ltb→lt q t e))
  | inr e ↦ omega (arith, mul-le-mul_right {m = t} {n = q} n (ground arith))
]
