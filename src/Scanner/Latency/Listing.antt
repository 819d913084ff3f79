-- ===== src/Scanner/Latency/Listing.antt =====
-- The addresses that the loop over one subnet gives.
use mathlib.Core.Path.{subst}
use xray_knife.Prelude.{
  ℕ, zero, suc, ◌+◌, ◌≤◌, ◌<◌, ◌≡◌, refl, sym, ap, ◌-◌, ◌∙◌, inl, inr, ◌↔◌, List, [], ◌∷◌, map,
  none, some, length, ◌==◌, In, All, arith, All-In, Bool-cases, Option-cases,
}
use xray_knife.Text.{Text}
use xray_knife.Prelude.Reordered.{In-map_cases, In-length, IsReordered-length, IsReordered}
use xray_knife.Prelude.Reordered.{In-map, IsReordered-In, IsReordered-sym}
use xray_knife.Addresses.{
  Ip, IsIp, Cidr, bits, IsCidr, AvoidsMapped, network, cidr_to_list_ip, subnet_ips, increment_ip,
  inc,
}
use xray_knife.Addresses.Value.{value}
use xray_knife.Addresses.Powers.{pow2-pos}
use xray_knife.Addresses.Block.{block_size, value-injective}
use xray_knife.Addresses.Block.Walk.{network_bytes, network_length, range, subnet_ips-ends}
use xray_knife.Scanner.{ScannerConfig}
use xray_knife.Scanner.Latency.{Net, loop_over, addresses_of}

-- The address lies in the subnet.
abbrev pub Belongs : Cidr → Ip → Type 0
Belongs c a =
    IsIp a
    × (length a ≡ length c.ip)
    × (value (network c) ≤ value a)
    × (value a < value (network c) + block_size c)

-- A subnet that the loops get through.
abbrev pub IsScannable : Net → Cidr → Type 0
IsScannable net c = IsCidr c × AvoidsMapped c × (0 < c.ones) × (block_size c < net.rounds)

In-range : (n a k : ℕ) → In k (range a n) → (a ≤ k) × (k < a + n)
In-range zero a k h = elim h [ ]
In-range (suc n) a k (inl e) = omega arith
In-range (suc n) a k (inr i) = omega (arith, In-range n (suc a) k i)

In-range_intro : (n a k : ℕ) → a ≤ k → k < a + n → In k (range a n)
In-range_intro zero a k lo hi = absurd (omega arith)
In-range_intro (suc n) a k lo hi = elim (Bool-cases (a == k)) [
  | inl e ↦ inl (ground arith)
  | inr e ↦ inr (In-range_intro n (suc a) k (ground arith) (omega arith))
]

module _ (c : Cidr) (valid : IsCidr c) (plain : AvoidsMapped c) (some_prefix : 0 < c.ones) where
  listed :
      (ips : List Ip)
      → map value ips ≡ range (value (network c)) (block_size c)
      → All (λ ip. IsIp ip × (length ip ≡ length c.ip)) ips
      → (a : Ip) → In a ips ↔ Belongs c a
  listed ips values shapes a = (
    λ i.
        let shape = All-In (λ ip. IsIp ip × (length ip ≡ length c.ip)) ips shapes i in
        let span =
          In-range (block_size c) (value (network c)) (value a)
            (subst (λ (ns : List ℕ). In (value a) ns) values (In-map value a ips i)) in
        (shape.0, shape.1, span.0, span.1),
    λ (h, len, lo, hi).
        let (b, i, e) = In-map_cases value (value a) ips (
          subst (λ (ns : List ℕ). In (value a) ns) (sym values)
            (In-range_intro (block_size c) (value (network c)) (value a) lo hi)) in
        let shape = All-In (λ ip. IsIp ip × (length ip ≡ length c.ip)) ips shapes i in
        subst (λ (ip : Ip). In ip ips) (value-injective b a (shape.0) h (shape.1 ∙ sym len) e) i,
  )

  -- The list of the loop has exactly the addresses of the subnet.
  pub subnet_ips-Belongs :
      (fuel : ℕ)
      → block_size c < fuel
      → (ips : List Ip) × (subnet_ips fuel increment_ip c ≡ some ips)
        × (subnet_ips fuel inc c ≡ some ips)
        × ((a : Ip) → In a ips ↔ Belongs c a)
        × (0 < length ips)
  subnet_ips-Belongs fuel enough =
      let (ips, found, same, values, shapes) =
        subnet_ips-ends c valid plain fuel some_prefix enough in
      let size = pow2-pos (bits c - c.ones) in
      let all = listed ips values shapes in
      (
        ips,
        found,
        same,
        all,
        In-length (network c) ips (
            (all (network c)).1 (
              network_bytes c valid plain,
              network_length c valid plain,
              omega arith,
              omega (arith, size),
            )),
      )

length-map : {A B : Type 0} (f : A → B) (xs : List A) → length (map f xs) ≡ length xs
length-map f [] = refl
length-map f (x ∷ xs) = ap suc (length-map f xs)

reordered :
    {Q : Type 0} (l m : List Text) (ip : Text) → IsReordered l m → (In ip m ↔ Q) → In ip l ↔ Q
reordered l m ip r h =
    (λ i. h.0 (IsReordered-In ip r i), λ q. IsReordered-In ip (IsReordered-sym r) (h.1 q))

-- What the loop over one subnet gives: nothing where it does not parse, else its addresses.
pub data Listing (net : Net) (c : ScannerConfig) (shuffle : List Text → List Text) (cidr : Text)
    : Type 0 where
  unread :
      net.parse_cidr cidr ≡ none
      → addresses_of net c shuffle cidr ≡ some none
      → Listing net c shuffle cidr
  read :
      (subnet : Cidr) (ips : List Text)
      → net.parse_cidr cidr ≡ some subnet
      → addresses_of net c shuffle cidr ≡ some (some ips)
      → ((ip : Text) → In ip ips ↔ ((a : Ip) × Belongs subnet a × (net.show_ip a ≡ ip)))
      → 0 < length ips
      → Listing net c shuffle cidr

module _ (net : Net) (c : ScannerConfig) (shuffle : List Text → List Text)
    (reorders : (ips : List Text) → IsReordered (shuffle ips) ips) where
  shown :
      (subnet : Cidr) (ips : List Ip)
      → ((a : Ip) → In a ips ↔ Belongs subnet a)
      → (ip : Text)
      → In ip (map net.show_ip ips) ↔ ((a : Ip) × Belongs subnet a × (net.show_ip a ≡ ip))
  shown subnet ips all ip = (
    λ i. let (a, j, e) = In-map_cases net.show_ip ip ips i in (a, (all a).0 j, e),
    λ (a, b, e).
        subst (λ (t : Text). In t (map net.show_ip ips)) e (In-map net.show_ip a ips ((all a).1 b)),
  )

  pub listing :
      (cidr : Text)
      → ((subnet : Cidr) → net.parse_cidr cidr ≡ some subnet → IsScannable net subnet)
      → Listing net c shuffle cidr
  unfolding addresses_of loop_over cidr_to_list_ip
  listing cidr scannable = elim (Option-cases (net.parse_cidr cidr)) [
    | inl e ↦ unread e (elim (Bool-cases c.shuffle_ips) [
      | inl o ↦ rw (addresses_of, o, cidr_to_list_ip, e) refl
      | inr o ↦ rw (addresses_of, o, loop_over, e) refl
    ])
    | inr (subnet, e) ↦
        let (valid, plain, some_prefix, enough) = scannable subnet e in
        let (ips, found, same, all, many) =
          subnet_ips-Belongs subnet valid plain some_prefix net.rounds enough in
        let texts = map net.show_ip ips in
        elim (Bool-cases c.shuffle_ips) [
          | inl o ↦
              read subnet (shuffle texts) e (rw (addresses_of, o, cidr_to_list_ip, e, found) refl)
                (λ ip.
                  reordered (shuffle texts) texts ip (reorders texts) (shown subnet ips all ip))
                (omega
                  (arith, many, length-map net.show_ip ips, IsReordered-length (reorders texts)))
          | inr o ↦
              read subnet texts e (rw (addresses_of, o, loop_over, e, same) refl)
                (shown subnet ips all) (omega (arith, many, length-map net.show_ip ips))
        ]
  ]
