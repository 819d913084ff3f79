-- ===== src/Addresses.antt =====
-- utils/ip.go, and the increment of pkg/scanner/scanner.go: walking through the addresses of a
-- subnet. An address is its bytes, the most significant first, as in Go's net.IP.
pub mod Value
pub mod Powers
pub mod Mask
pub mod Block
pub mod Sizes
use xray_knife.Prelude.{
  ℕ, zero, suc, ◌+◌, ◌-◌, ◌*◌, ◌/◌, ◌%◌, ◌^◌, ◌≤◌, ◌<◌, ◌≡◌, Bool, true, false, ◌&&◌, List, [], ◌∷◌,
  ◌++◌, map, reverse, Option, none, some, if◌then◌else◌, ltb, leb, ◌==◌, length, take, drop, All,
}
use xray_knife.Prelude.Int.{ℤ, pos, negsuc}
use xray_knife.Text.{Text, bytes, contains}

abbrev pub Ip : Type 0
Ip = List ℕ

-- A subnet in CIDR notation as net.ParseCIDR reads it: the address as it is written, in four bytes
-- or in sixteen, and the length of the prefix. The network is the address under the mask.
pub record Cidr : Type 0 where
  pub ip : Ip
  pub ones : ℕ

abbrev pub bits : Cidr → ℕ
bits c = 8 * length c.ip

-- net.CIDRMask's byte for a prefix that has `ones` bits left, in conjunction with `b`.
abbrev pub mask_byte : ℕ → ℕ → ℕ
mask_byte ones b = if leb 8 ones then b else b / 2 ^ (8 - ones) * 2 ^ (8 - ones)

-- IP.Mask
unfoldable pub mask : ℕ → Ip → Ip
mask ones [] = []
mask ones (b ∷ ip) = mask_byte ones b ∷ mask (ones - 8) ip

unfoldable pub eq_ip : Ip → Ip → Bool
eq_ip [] [] = true
eq_ip [] (c ∷ jp) = false
eq_ip (b ∷ ip) [] = false
eq_ip (b ∷ ip) (c ∷ jp) = b == c && eq_ip ip jp

unfoldable pub network : Cidr → Ip
unfolding mask
network c = mask c.ones c.ip

abbrev pub v4_prefix : Ip
v4_prefix = 0 ∷ 0 ∷ 0 ∷ 0 ∷ 0 ∷ 0 ∷ 0 ∷ 0 ∷ 0 ∷ 0 ∷ 255 ∷ 255 ∷ []

-- Whether `To4` gives four bytes for an address of sixteen.
unfoldable pub is_v4 : Ip → Bool
unfolding eq_ip
is_v4 ip = length ip == 16 && eq_ip (take 12 ip) v4_prefix

unfoldable pub to4 : Ip → Ip
unfolding is_v4
to4 ip = if is_v4 ip then drop 12 ip else ip

-- IPNet.Contains, which compares both addresses in their short form.
unfoldable pub in_subnet : Cidr → Ip → Bool
unfolding mask eq_ip network is_v4 to4
in_subnet c ip =
    let ones = if is_v4 (network c) then c.ones - 96 else c.ones in
    eq_ip (mask ones (to4 (network c))) (mask ones (to4 ip))

-- The loop of `incrementIP`, over the bytes from the last one on.
unfoldable pub carry : List ℕ → List ℕ
carry [] = []
carry (b ∷ bs) = if b == 255 then 0 ∷ carry bs else suc b ∷ bs

unfoldable pub increment_ip : Ip → Ip
unfolding carry
increment_ip ip = reverse (carry (reverse ip))

-- The loop of the scanner's `inc`: the byte wraps, and a byte that is not 0 then ends the loop.
unfoldable pub wrap : List ℕ → List ℕ
wrap [] = []
wrap (b ∷ bs) = let c = suc b % 256 in if ltb 0 c then c ∷ bs else c ∷ wrap bs

unfoldable pub inc : Ip → Ip
unfolding wrap
inc ip = reverse (wrap (reverse ip))

-- `for ip := first; contains(ip); next(ip)`, where `none` is a loop that has not ended yet.
unfoldable pub enumerate : ℕ → (Ip → Bool) → (Ip → Ip) → Ip → Option (List Ip)
enumerate zero inside next ip = none
enumerate (suc fuel) inside next ip =
    let rest = enumerate fuel inside next (next ip) in
    if inside ip then elim rest [ none ↦ none | some ips ↦ some (ip ∷ ips) ] else some []

unfoldable pub subnet_ips : ℕ → (Ip → Ip) → Cidr → Option (List Ip)
unfolding enumerate
subnet_ips fuel next c = enumerate fuel (in_subnet c) next (network c)

-- `inl` is the error of a text that does not parse.
unfoldable pub cidr_to_list_ip :
    (Text → Option Cidr) → (Ip → Text) → ℕ → Text → Option (Option (List Text))
unfolding subnet_ips increment_ip
cidr_to_list_ip parse_cidr show fuel cidr = elim (parse_cidr cidr) [
  | none ↦ some none
  | some c ↦ elim (subnet_ips fuel increment_ip c) [
    | none ↦ none
    | some ips ↦ some (some (map show ips))
  ]
]

-- A 64-bit word read as Go's int.
unfoldable pub to_int : ℕ → ℤ
to_int w = if ltb w (2 ^ 63) then pos w else negsuc (2 ^ 64 - suc w)

-- `1 << (bits - ones)`, in 64 bits.
unfoldable pub size_of : Cidr → ℤ
unfolding to_int
size_of c = to_int (2 ^ (bits c - c.ones) % 2 ^ 64)

unfoldable pub cidr_size : (Text → Option Cidr) → Text → Option ℤ
unfolding size_of
cidr_size parse_cidr cidr = elim (parse_cidr cidr) [ none ↦ none | some c ↦ some (size_of c) ]

unfoldable pub normalize_cidr : (Text → Option Ip) → Text → Text
unfolding is_v4
normalize_cidr parse_ip s = if contains s (bytes "/") then s else elim (parse_ip s) [
  | none ↦ s
  | some ip ↦ if is_v4 ip then s ++ bytes "/32" else s ++ bytes "/128"
]

unfoldable pub is_ipv6 : (Text → Option Ip) → Text → Bool
unfolding is_v4
is_ipv6 parse_ip s = elim (parse_ip s) [ none ↦ false | some ip ↦ if is_v4 ip then false else true ]

-- Bytes, and a prefix that fits; net.ParseCIDR returns nothing else.
abbrev pub IsIp : Ip → Type 0
IsIp ip = All (λ b. b < 256) ip

abbrev pub IsCidr : Cidr → Type 0
IsCidr c = IsIp c.ip × (c.ones ≤ bits c)

-- No address of the subnet is an IPv4 address in sixteen bytes.
abbrev pub AvoidsMapped : Cidr → Type 0
AvoidsMapped c =
    (ip : Ip) → length ip ≡ length c.ip → mask c.ones ip ≡ mask c.ones c.ip → is_v4 ip ≡ false
