-- ===== src/Scanner/Latency.antt =====
-- The latency phase of the scanner: which addresses of the subnets are tested.
pub mod Listing
pub mod Submitted
use xray_knife.Prelude.{
  ℕ, suc, ◌+◌, Bool, true, false, ◌||◌, not, List, [], ◌∷◌, ◌++◌, map, Option, none, some,
  if◌then◌else◌, length, keep, count_if, ◌==◌,
}
use xray_knife.Text.{Text, bytes, eq_text}
use xray_knife.Core.{Fallible, ok, err}
use xray_knife.Addresses.{Ip, Cidr, cidr_to_list_ip, subnet_ips, inc}
use xray_knife.Scanner.{ScannerConfig}

-- The map `scannedIPs`, by its keys.
unfoldable pub is_scanned : List Text → Text → Bool
is_scanned [] ip = false
is_scanned (s ∷ scanned) ip = eq_text s ip || is_scanned scanned ip

-- net.ParseCIDR and IP.String, and how many rounds the loops over a subnet are followed.
pub record Net : Type 0 where
  pub parse_cidr : Text → Option Cidr
  pub show_ip : Ip → Text
  pub rounds : ℕ

-- The loop that goes through a subnet without a list: `none` has not ended.
unfoldable pub loop_over : Net → Text → Option (Option (List Text))
unfolding subnet_ips
loop_over net cidr = elim (net.parse_cidr cidr) [
  | none ↦ some none
  | some c ↦ elim (subnet_ips net.rounds inc c) [
    | none ↦ none
    | some ips ↦ some (some (map net.show_ip ips))
  ]
]

-- The addresses of a subnet in the order in which they are taken: `some none` does not parse.
unfoldable pub addresses_of :
    Net → ScannerConfig → (List Text → List Text) → Text → Option (Option (List Text))
unfolding loop_over cidr_to_list_ip
addresses_of net c shuffle cidr =
    if c.shuffle_ips
    then elim (cidr_to_list_ip net.parse_cidr net.show_ip net.rounds cidr) [
      | none ↦ none
      | some none ↦ some none
      | some (some ips) ↦ some (some (shuffle ips))
    ]
    else loop_over net cidr

-- What was submitted to the pool, how many addresses were counted as already scanned, and whether
-- there was an address at all.
pub record Targets : Type 0 where
  pub submitted : List Text
  pub skipped : ℕ
  pub has_ips : Bool

abbrev pub no_targets : Targets
no_targets = record { submitted = []; skipped = 0; has_ips = false }

unfoldable pub add_subnet : List Text → List Text → Targets → Targets
unfolding is_scanned
add_subnet scanned ips t = record {
  submitted = t.submitted ++ keep (λ ip. not (is_scanned scanned ip)) ips;
  skipped = t.skipped + count_if (is_scanned scanned) ips;
  has_ips = t.has_ips || not (length ips == 0);
}

module _ (net : Net) (c : ScannerConfig) (shuffle : List Text → List Text)
    (scanned : List Text) where
  -- The loop over the subnets: `done i` says that the context is done before subnet `i`, and the
  -- answer tells whether the loop was cut off.
  unfoldable pub collect_targets : (ℕ → Bool) → ℕ → List Text → Targets → Option (Targets × Bool)
  unfolding addresses_of add_subnet
  collect_targets done i [] t = some (t, false)
  collect_targets done i (cidr ∷ cidrs) t =
      if done i then some (t, true) else elim (addresses_of net c shuffle cidr) [
        | none ↦ none
        | some none ↦ collect_targets done (suc i) cidrs t
        | some (some ips) ↦ collect_targets done (suc i) cidrs (add_subnet scanned ips t)
      ]

  -- `runLatencyScan`, up to what the tests of the submitted addresses answer; `wait` is the error of
  -- the pool.
  unfoldable pub run_latency_scan :
      (ℕ → Bool) → ℕ → Fallible (Unit {0}) → Option (Targets × Fallible (Unit {0}))
  unfolding collect_targets
  run_latency_scan done initial wait = elim (collect_targets done 0 c.subnets no_targets) [
    | none ↦ none
    | some (t, true) ↦ some (t, err (bytes "context canceled"))
    | some (t, false) ↦ some (
      t,
      if not t.has_ips
          then (if initial == 0
              then err (bytes "scanner failed: no scannable IPs detected")
              else wait)
          else wait,
    )
  ]
