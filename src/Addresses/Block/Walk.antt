-- ===== src/Addresses/Block/Walk.antt =====
-- The loop ends, and lists each address of the subnet once.
use mathlib.Core.Path.{subst}
use xray_knife.Prelude.{
  ℕ, zero, suc, ◌+◌, ◌-◌, ◌*◌, ◌^◌, ◌≤◌, ◌<◌, ◌≡◌, refl, ap, ◌∙◌, inl, inr, Bool, true, false, List,
  [], ◌∷◌, arith, length, All, Bool-cases, some, map,
}
use xray_knife.Addresses.{
  Ip, IsIp, Cidr, IsCidr, AvoidsMapped, bits, network, in_subnet, enumerate, subnet_ips,
  increment_ip, inc,
}
use xray_knife.Addresses.Value.{
  value, value-lt, value-increment_cases, value-increment, length-increment, increment-IsIp,
}
use xray_knife.Addresses.Mask.{length-mask}
use xray_knife.Addresses.Powers.{pow2-lt, pow2-pos, pow2-add, block_end, pow256_as_pow2}
use xray_knife.Addresses.Block.{block_size, in_subnet_iff, network_block, mask-IsIp}

-- `n` numbers from `a` on.
abbrev pub range : ℕ → ℕ → List ℕ
range a zero = []
range a (suc n) = a ∷ range (suc a) n

enumerate-inside :
    (fuel : ℕ) (inside : Ip → Bool) (next : Ip → Ip) (ip : Ip) (ips : List Ip)
    → inside ip ≡ true
    → enumerate fuel inside next (next ip) ≡ some ips
    → enumerate (suc fuel) inside next ip ≡ some (ip ∷ ips)
unfolding enumerate
enumerate-inside fuel inside next ip ips h e = rw (h, e) refl

enumerate-outside :
    (fuel : ℕ) (inside : Ip → Bool) (next : Ip → Ip) (ip : Ip)
    → inside ip ≡ false
    → enumerate (suc fuel) inside next ip ≡ some []
unfolding enumerate
enumerate-outside fuel inside next ip h = rw h refl

-- Both increments make the same loop.
enumerate_same :
    (inside : Ip → Bool) (fuel : ℕ) (ip : Ip)
    → IsIp ip
    → enumerate fuel inside inc ip ≡ enumerate fuel inside increment_ip ip
unfolding enumerate
enumerate_same inside zero ip h = refl
enumerate_same inside (suc fuel) ip h =
    rw
      ((value-increment ip h).3, enumerate_same inside fuel (increment_ip ip) (increment-IsIp ip h))
      refl

-- A prefix leaves less than the whole address space.
block_size-lt : (c : Cidr) → IsCidr c → 0 < c.ones → block_size c < 256 ^ length c.ip
block_size-lt c valid some_prefix = omega (
  arith,
  pow256_as_pow2 (length c.ip),
  pow2-lt (bits c - c.ones) (bits c) (omega (arith, valid.1)),
)

one_and_rest : (n : ℕ) → 0 < n → suc (n - 1) ≡ n
one_and_rest n h = omega arith

module _ (c : Cidr) (valid : IsCidr c) (plain : AvoidsMapped c) where
  -- The rest of the loop, from an address with `suc k` addresses left.
  record Rest (fuel k : ℕ) (ip : Ip) : Type 0 where
    ips : List Ip
    found : enumerate fuel (in_subnet c) increment_ip ip ≡ some ips
    values : map value ips ≡ range (value ip) k
    shapes : All (λ jp. IsIp jp × (length jp ≡ length c.ip)) ips

  network_end : value (network c) + block_size c ≤ 256 ^ length c.ip
  network_end =
      let n = network_block c valid plain in
      omega (
        arith,
        n.start,
        space,
        block_end n.block (block_size c) (2 ^ c.ones) n.offset
            (omega (arith, n.address, space, value-lt c.ip (valid.0))),
      )
    where
      space : 256 ^ length c.ip ≡ 2 ^ c.ones * block_size c
      space =
          pow256_as_pow2 (length c.ip)
          ∙ ap (λ (t : ℕ). 2 ^ t) (omega (arith, valid.1))
          ∙ pow2-add c.ones (bits c - c.ones)

  module _ (ip : Ip) (h : IsIp ip) (len : length ip ≡ length c.ip) where
    increment_plain :
        2 + value ip ≤ value (network c) + block_size c → value (increment_ip ip) ≡ suc (value ip)
    increment_plain left = elim (value-increment_cases ip h) [
      | inl e ↦ e
      | inr (full, e) ↦ absurd (omega (arith, network_end, ap (λ (n : ℕ). 256 ^ n) len))
    ]

    next_length : length (increment_ip ip) ≡ length c.ip
    next_length = length-increment ip ∙ len

    past_end :
        0 < c.ones
        → suc (value ip) ≡ value (network c) + block_size c
        → value (network c) ≤ value (increment_ip ip)
        → value (increment_ip ip) < value (network c) + block_size c
        → ⊥
    past_end some_prefix last lo hi = elim (value-increment_cases ip h) [
      | inl e ↦ omega arith
      | inr (full, e) ↦
          omega (arith, ap (λ (n : ℕ). 256 ^ n) len, block_size-lt c valid some_prefix)
    ]

    leaves :
        0 < c.ones
        → suc (value ip) ≡ value (network c) + block_size c
        → in_subnet c (increment_ip ip) ≡ false
    leaves some_prefix last = elim (Bool-cases (in_subnet c (increment_ip ip))) [
      | inr out ↦ out
      | inl t ↦
          let (lo, hi) =
            (in_subnet_iff c valid plain (increment_ip ip) (increment-IsIp ip h) next_length).0 t in
          absurd (past_end some_prefix last lo hi)
    ]

    stays :
        value (network c) ≤ value ip
        → value ip < value (network c) + block_size c
        → in_subnet c ip ≡ true
    stays lo hi = (in_subnet_iff c valid plain ip h len).1 (lo, hi)

  walk :
      (k fuel : ℕ) (ip : Ip)
      → IsIp ip
      → length ip ≡ length c.ip
      → 0 < c.ones
      → value (network c) ≤ value ip
      → suc k + value ip ≡ value (network c) + block_size c
      → suc k < fuel
      → Rest fuel (suc k) ip
  walk k zero ip h len some_prefix lo left enough = absurd (omega arith)
  walk zero (suc zero) ip h len some_prefix lo left enough = absurd (omega arith)
  walk zero (suc (suc fuel)) ip h len some_prefix lo left enough = record {
    ips = ip ∷ [];
    found =
        enumerate-inside (suc fuel) (in_subnet c) increment_ip ip []
          (stays ip h len lo (omega arith))
          (enumerate-outside fuel (in_subnet c) increment_ip (increment_ip ip)
            (leaves ip h len some_prefix (omega arith)));
    values = refl;
    shapes = ((h, len), tt);
  }
  walk (suc k) (suc fuel) ip h len some_prefix lo left enough =
      let e = increment_plain ip h len (omega arith) in
      let rest =
        walk k fuel (increment_ip ip) (increment-IsIp ip h) (next_length ip h len) some_prefix
          (omega arith) (omega arith) (omega arith) in
      record {
        ips = ip ∷ rest.ips;
        found =
            enumerate-inside fuel (in_subnet c) increment_ip ip rest.ips
              (stays ip h len lo (omega arith)) rest.found;
        values = ap (λ (ns : List ℕ). value ip ∷ ns) (rest.values ∙ ap (λ a. range a (suc k)) e);
        shapes = ((h, len), rest.shapes);
      }

  pub network_bytes : IsIp (network c)
  unfolding network
  network_bytes = mask-IsIp c.ones c.ip (valid.0)

  pub network_length : length (network c) ≡ length c.ip
  unfolding network
  network_length = length-mask c.ones c.ip

  whole : (fuel : ℕ) → 0 < c.ones → block_size c < fuel → Rest fuel (block_size c) (network c)
  whole fuel some_prefix enough =
      subst (λ (n : ℕ). Rest fuel n (network c))
        (one_and_rest (block_size c) (pow2-pos (bits c - c.ones)))
        (walk (block_size c - 1) fuel (network c) network_bytes network_length some_prefix
          (omega arith) (omega (arith, pow2-pos (bits c - c.ones)))
          (omega (arith, enough, pow2-pos (bits c - c.ones))))

  -- Where the prefix is not empty and no address with that prefix is an IPv4 address in sixteen
  -- bytes, as none is in a subnet of four bytes, the loop ends within one round more than the subnet
  -- has addresses, and lists exactly the addresses from the network on, in order; the scanner's loop
  -- does the same.
  pub subnet_ips-ends :
      (fuel : ℕ)
      → 0 < c.ones
      → block_size c < fuel
      → (ips : List Ip) × (subnet_ips fuel increment_ip c ≡ some ips)
        × (subnet_ips fuel inc c ≡ some ips)
        × (map value ips ≡ range (value (network c)) (block_size c))
        × All (λ ip. IsIp ip × (length ip ≡ length c.ip)) ips
  unfolding subnet_ips
  subnet_ips-ends fuel some_prefix enough =
      let rest = whole fuel some_prefix enough in
      (
        rest.ips,
        rest.found,
        enumerate_same (in_subnet c) fuel (network c) network_bytes ∙ rest.found,
        rest.values,
        rest.shapes,
      )
