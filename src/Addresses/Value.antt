-- ===== src/Addresses/Value.antt =====
-- An address as the number its bytes stand for, and the increment on that number.
use native.Mathlib.Nat.{
  pow-suc, one-le-pow, mul_left_comm, mul-le-mul_right, mod-eq_of_lt, mod_self,
}
use xray_knife.Prelude.{
  ℕ, suc, ◌+◌, ◌*◌, ◌%◌, ◌^◌, ◌<◌, ◌≡◌, refl, sym, ap, ◌∙◌, ◌⊎◌, inl, inr, List, [], ◌∷◌, ◌++◌,
  reverse, arith, length, length-append, All-append, reverse-append, reverse-reverse,
}
use xray_knife.Addresses.{Ip, IsIp, carry, increment_ip, wrap, inc}

abbrev pub value : Ip → ℕ
value [] = 0
value (b ∷ ip) = b * 256 ^ length ip + value ip

pub pow256-suc : (n : ℕ) → 256 ^ suc n ≡ 256 * 256 ^ n
pow256-suc n = omega (arith, pow-suc 256 n)

pub pow256-pos : (n : ℕ) → 0 < 256 ^ n
pow256-pos n = omega (arith, one-le-pow n 256)

mul-pow256-suc : (b n : ℕ) → b * 256 ^ suc n ≡ 256 * (b * 256 ^ n)
mul-pow256-suc b n = rw (pow256-suc, mul_left_comm b 256 (256 ^ n)) refl

-- The least significant byte first.
abbrev low : List ℕ → ℕ
low [] = 0
low (b ∷ bs) = b + 256 * low bs

length-snoc : (xs : List ℕ) (b : ℕ) → length (xs ++ (b ∷ [])) ≡ suc (length xs)
length-snoc xs b = omega (arith, length-append xs (b ∷ []))

value-snoc : (xs : List ℕ) (b : ℕ) → value (xs ++ (b ∷ [])) ≡ b + 256 * value xs
value-snoc [] b = omega arith
value-snoc (c ∷ xs) b = omega (
  arith,
  value-snoc xs b,
  ap (λ (n : ℕ). c * 256 ^ n) (length-snoc xs b),
  mul-pow256-suc c (length xs),
)

reverse-cons : (b : ℕ) (bs : List ℕ) → reverse (b ∷ bs) ≡ reverse bs ++ (b ∷ [])
reverse-cons b bs = reverse-append (b ∷ []) bs

value-reverse : (bs : List ℕ) → value (reverse bs) ≡ low bs
value-reverse [] = refl
value-reverse (b ∷ bs) = rw (reverse-cons, value-snoc, value-reverse bs) refl

pub value-lt : (ip : Ip) → IsIp ip → value ip < 256 ^ length ip
value-lt [] h = omega arith
value-lt (b ∷ ip) h = omega (
  arith,
  value-lt ip (h.1),
  pow256-suc (length ip),
  mul-le-mul_right {m = b} {n = 255} (256 ^ length ip) (omega (arith, h.0)),
)

length-reverse : (bs : List ℕ) → length (reverse bs) ≡ length bs
length-reverse [] = refl
length-reverse (b ∷ bs) =
    rw reverse-cons (omega (arith, length-append (reverse bs) (b ∷ []), length-reverse bs))

reverse-IsIp : (bs : List ℕ) → IsIp bs → IsIp (reverse bs)
reverse-IsIp [] h = h
reverse-IsIp (b ∷ bs) h =
    rw reverse-cons
      (All-append (λ c. c < 256) (reverse bs) (b ∷ []) (reverse-IsIp bs (h.1)) (h.0, tt))

length-carry : (bs : List ℕ) → length (carry bs) ≡ length bs
unfolding carry
length-carry [] = refl
length-carry (b ∷ bs) = ground (arith, length-carry bs)

carry-IsIp : (bs : List ℕ) → IsIp bs → IsIp (carry bs)
unfolding carry
carry-IsIp [] h = h
carry-IsIp (b ∷ bs) h = ground (arith, carry-IsIp bs)

-- One more, unless every byte is at its end: then all are 0.
low-carry :
    (bs : List ℕ)
    → IsIp bs
    → (low (carry bs) ≡ suc (low bs)) ⊎ ((suc (low bs) ≡ 256 ^ length bs) × (low (carry bs) ≡ 0))
unfolding carry
low-carry [] h = inr (refl, refl)
low-carry (b ∷ bs) h = ground (arith, low-carry bs, pow256-suc (length bs))

pub length-increment : (ip : Ip) → length (increment_ip ip) ≡ length ip
unfolding increment_ip
length-increment ip =
    length-reverse (carry (reverse ip)) ∙ length-carry (reverse ip) ∙ length-reverse ip

pub increment-IsIp : (ip : Ip) → IsIp ip → IsIp (increment_ip ip)
unfolding increment_ip
increment-IsIp ip h =
    reverse-IsIp (carry (reverse ip)) (carry-IsIp (reverse ip) (reverse-IsIp ip h))

low-reverse : (ip : Ip) → low (reverse ip) ≡ value ip
low-reverse ip = sym (value-reverse (reverse ip)) ∙ ap value (reverse-reverse ip)

pub value-increment_cases :
    (ip : Ip)
    → IsIp ip
    → (value (increment_ip ip) ≡ suc (value ip))
      ⊎ ((suc (value ip) ≡ 256 ^ length ip) × (value (increment_ip ip) ≡ 0))
unfolding increment_ip
value-increment_cases ip h =
    rw (value-reverse, ← low-reverse ip, ← length-reverse ip)
      (low-carry (reverse ip) (reverse-IsIp ip h))

-- The scanner's byte-by-byte increment is the one of the utilities.
wrap-carry : (bs : List ℕ) → IsIp bs → wrap bs ≡ carry bs
unfolding wrap carry
wrap-carry [] h = refl
wrap-carry (b ∷ bs) h = ground (arith, wrap-carry bs)

-- On the number that the bytes stand for, the increment adds 1 and wraps at the end of the address
-- space, it keeps the number of bytes, and the scanner's own loop `inc` is the same function.
pub value-increment :
    (ip : Ip)
    → IsIp ip
    → (value (increment_ip ip) ≡ suc (value ip) % 256 ^ length ip)
      × (length (increment_ip ip) ≡ length ip)
      × IsIp (increment_ip ip)
      × (inc ip ≡ increment_ip ip)
unfolding increment_ip inc
value-increment ip h = (
  elim (value-increment_cases ip h) [
    | inl e ↦
        e
        ∙ sym (
            mod-eq_of_lt (
              omega (
                arith,
                e,
                length-increment ip,
                ap (λ n. 256 ^ n) (length-increment ip),
                value-lt (increment_ip ip) (increment-IsIp ip h),
              )))
    | inr (full, e) ↦
        e ∙ sym (mod_self (256 ^ length ip)) ∙ ap (λ n. n % 256 ^ length ip) (sym full)
  ],
  length-increment ip,
  increment-IsIp ip h,
  ap reverse (wrap-carry (reverse ip) (reverse-IsIp ip h)),
)
