-- ===== src/Tests/Subnets.antt =====
-- Tests of the walk through subnets.
use xray_knife.Prelude.{◌≡◌, ◌≤◌, refl, List, [], ◌∷◌, none, some, length, map, arith, All}
use xray_knife.Prelude.Int.{pos}
use xray_knife.Text.{bytes, eq_text, contains, has_prefix}
use xray_knife.Addresses.{
  Ip, IsIp, Cidr, IsCidr, mask, network, eq_ip, is_v4, to4, in_subnet, carry, increment_ip, wrap,
  inc, enumerate, subnet_ips, to_int, size_of, normalize_cidr,
}
use xray_knife.Addresses.Value.{value, value-increment}
use xray_knife.Addresses.Block.{four_bytes-AvoidsMapped}
use xray_knife.Addresses.Block.Stuck.{subnet_ips_stuck}
use xray_knife.Addresses.Block.Walk.{subnet_ips-ends}
use xray_knife.Addresses.Sizes.{size_of-subnet_ips, size_of-overflow}

subnets_code : Unit {0}
unfolding eq_text contains has_prefix mask network eq_ip is_v4 to4 in_subnet carry increment_ip wrap
    inc enumerate subnet_ips to_int size_of normalize_cidr
subnets_code = tt

-- 192.168.1.77/30
abbrev pub four_ips : Cidr
four_ips = record { ip = 192 ∷ 168 ∷ 1 ∷ 77 ∷ []; ones = 30 }

-- 255.255.255.255/31, at the end of the address space
abbrev last_ips : Cidr
last_ips = record { ip = 255 ∷ 255 ∷ 255 ∷ 255 ∷ []; ones = 31 }

abbrev all_ips : Cidr
all_ips = record { ip = 0 ∷ 0 ∷ 0 ∷ 0 ∷ []; ones = 0 }

abbrev v6_ips : Cidr
v6_ips = record {
  ip = 32 ∷ 1 ∷ 0 ∷ 0 ∷ 0 ∷ 0 ∷ 0 ∷ 0 ∷ 0 ∷ 0 ∷ 0 ∷ 0 ∷ 0 ∷ 0 ∷ 0 ∷ 0 ∷ [];
  ones = 64;
}

pub four_ips-IsCidr : IsCidr four_ips
four_ips-IsCidr = ((omega arith, (omega arith, (omega arith, (omega arith, tt)))), omega arith)

last_ips-IsCidr : IsCidr last_ips
last_ips-IsCidr = ((omega arith, (omega arith, (omega arith, (omega arith, tt)))), omega arith)

all_ips-IsCidr : IsCidr all_ips
all_ips-IsCidr = ((omega arith, (omega arith, (omega arith, (omega arith, tt)))), omega arith)

the_end :
    subnet_ips 3 inc last_ips
    ≡ some ((255 ∷ 255 ∷ 255 ∷ 254 ∷ []) ∷ (255 ∷ 255 ∷ 255 ∷ 255 ∷ []) ∷ [])
unfolding subnets_code
the_end = refl

bare_address :
    normalize_cidr
      (λ s. some (0 ∷ 0 ∷ 0 ∷ 0 ∷ 0 ∷ 0 ∷ 0 ∷ 0 ∷ 0 ∷ 0 ∷ 255 ∷ 255 ∷ 1 ∷ 1 ∷ 1 ∷ 1 ∷ []))
      (bytes "1.1.1.1")
    ≡ bytes "1.1.1.1/32"
unfolding subnets_code
bare_address = refl

value-increment_example :
    (value (increment_ip (10 ∷ 255 ∷ 255 ∷ [])) ≡ 720896)
    × (length (increment_ip (10 ∷ 255 ∷ 255 ∷ [])) ≡ 3)
    × IsIp (increment_ip (10 ∷ 255 ∷ 255 ∷ []))
    × (inc (10 ∷ 255 ∷ 255 ∷ []) ≡ increment_ip (10 ∷ 255 ∷ 255 ∷ []))
value-increment_example =
    value-increment (10 ∷ 255 ∷ 255 ∷ []) (omega arith, (omega arith, (omega arith, tt)))

subnet_ips-ends_example :
    (ips : List Ip) × (subnet_ips 5 increment_ip four_ips ≡ some ips)
    × (subnet_ips 5 inc four_ips ≡ some ips)
    × (map value ips ≡ 3232235852 ∷ 3232235853 ∷ 3232235854 ∷ 3232235855 ∷ [])
    × All (λ ip. IsIp ip × (length ip ≡ 4)) ips
unfolding subnets_code
subnet_ips-ends_example =
    subnet_ips-ends four_ips four_ips-IsCidr (four_bytes-AvoidsMapped four_ips refl) 5 (omega arith)
      (omega arith)

subnet_ips_stuck_example : subnet_ips 7 increment_ip all_ips ≡ none
subnet_ips_stuck_example = subnet_ips_stuck 7 all_ips all_ips-IsCidr refl refl

size_of-subnet_ips_example :
    (ips : List Ip) × (subnet_ips 5 increment_ip four_ips ≡ some ips)
    × (size_of four_ips ≡ pos (length ips))
size_of-subnet_ips_example =
    size_of-subnet_ips four_ips 5 four_ips-IsCidr (four_bytes-AvoidsMapped four_ips refl)
      (omega arith) (omega arith) (omega arith)

size_of-overflow_example : (size_of v6_ips ≡ pos 0) × (18446744073709551616 ≤ 18446744073709551616)
size_of-overflow_example = size_of-overflow v6_ips (omega arith)

-- ::fffe:0:0/95, which ::ffff:1.2.3.4 belongs to by its prefix
abbrev around_v4 : Cidr
around_v4 = record {
  ip = 0 ∷ 0 ∷ 0 ∷ 0 ∷ 0 ∷ 0 ∷ 0 ∷ 0 ∷ 0 ∷ 0 ∷ 255 ∷ 254 ∷ 0 ∷ 0 ∷ 0 ∷ 0 ∷ [];
  ones = 95;
}

abbrev mapped_ip : Ip
mapped_ip = 0 ∷ 0 ∷ 0 ∷ 0 ∷ 0 ∷ 0 ∷ 0 ∷ 0 ∷ 0 ∷ 0 ∷ 255 ∷ 255 ∷ 1 ∷ 2 ∷ 3 ∷ 4 ∷ []

mapped_prefix : mask 95 mapped_ip ≡ network around_v4
unfolding subnets_code
mapped_prefix = refl
