-- ===== src/Prescan.antt =====
-- pkg/http/prescan.go: the TCP reachability check that runs before the tests. What dialling an
-- endpoint answers is a function of the endpoint, since each is dialled once.
pub mod Counts
use xray_knife.Prelude.{
  ℕ, zero, suc, ◌+◌, Bool, true, false, ◌||◌, ◌&&◌, not, List, [], ◌∷◌, ◌++◌, map, Option, none,
  some, if◌then◌else◌, ltb, leb, ◌==◌, length, all,
}
use xray_knife.Text.{
  Text, bytes, eq_text, is_empty, trim_space, trim_prefix, trim_suffix, contains, to_lower,
}
use xray_knife.Core.{Core, GeneralConfig, read_link}
use xray_knife.Pool.{seen_before}

is_one_of : Text → List Text → Bool
is_one_of s [] = false
is_one_of s (t ∷ ts) = eq_text s t || is_one_of s ts

abbrev pub udp_protocols : List Text
udp_protocols = bytes "hysteria2" ∷ bytes "hy2" ∷ bytes "wireguard" ∷ bytes "tun" ∷ []

abbrev pub udp_networks : List Text
udp_networks = bytes "kcp" ∷ bytes "mkcp" ∷ bytes "quic" ∷ []

unfoldable pub is_udp_based : GeneralConfig → Bool
unfolding is_one_of
is_udp_based gc =
    is_one_of (to_lower gc.protocol) udp_protocols
    || is_one_of (to_lower (trim_space gc.network)) udp_networks
    || is_one_of (to_lower (trim_space gc.kind)) udp_networks

is_digit : ℕ → Bool
is_digit c = leb b'0' c && leb c b'9'

-- strconv.Atoi's verdict: an optional sign and at least one digit. A value that does not fit in 64
-- bits is out of range there: `fits_int` is that check.
unfoldable pub is_number : (Text → Bool) → Text → Bool
unfolding is_digit
is_number fits_int [] = false
is_number fits_int (c ∷ s) =
    let body = if c == b'+' || c == b'-' then s else c ∷ s in
    not (is_empty body) && all is_digit body && fits_int (c ∷ s)

-- net.JoinHostPort
unfoldable pub join_host_port : Text → Text → Text
join_host_port host port =
    if contains host (bytes ":")
    then bytes "[" ++ host ++ bytes "]:" ++ port
    else host ++ bytes ":" ++ port

-- The endpoint of a general config, empty where the link bypasses the check.
unfoldable pub endpoint_of : (Text → Bool) → GeneralConfig → Text
unfolding is_udp_based is_number join_host_port
endpoint_of fits_int gc =
    let host = trim_suffix (trim_prefix (trim_space gc.address) (bytes "[")) (bytes "]") in
    if is_udp_based gc
    then []
    else if is_empty host || is_empty gc.port
    then []
    else if not (is_number fits_int (trim_space gc.port))
    then []
    else join_host_port host (trim_space gc.port)

unfoldable pub endpoint_for_link : {P : Type 0} → (Text → Bool) → Core P → Text → Text
unfolding endpoint_of
endpoint_for_link fits_int c link =
    if is_empty (trim_space link) then [] else elim (read_link c (trim_space link)) [
      | none ↦ []
      | some proto ↦ endpoint_of fits_int (c.general proto)
    ]

pub record PrescanResult : Type 0 where
  pub reachable : List Text
  pub tcp_reachable : ℕ
  pub bypassed : ℕ
  pub filtered_out : ℕ
  pub unique_endpoints : ℕ

-- The keys of the map `uniq`.
unfoldable pub uniq_from : (Text → Text) → List Text → List Text → List Text
unfolding seen_before
uniq_from endpoint seen [] = seen
uniq_from endpoint seen (link ∷ links) =
    uniq_from endpoint
      (if is_empty (endpoint link) || seen_before (endpoint link) seen
        then seen
        else endpoint link ∷ seen)
      links

-- The number of workers asked for, `none` for a negative one, among so many endpoints.
unfoldable pub worker_count : Option ℕ → ℕ → ℕ
worker_count workers uniq =
    let asked : ℕ = elim workers [ none ↦ 512 | some w ↦ if w == 0 then 512 else w ] in
    let capped = if ltb 0 uniq && ltb uniq asked then uniq else asked in
    if ltb capped 1 then 1 else capped

-- One round of the loop that assembles the survivors.
unfoldable pub settle : (Text → Text) → (Text → Bool) → Text → PrescanResult → PrescanResult
settle endpoint dial link res =
    if is_empty (endpoint link)
    then record res { bypassed = suc res.bypassed; reachable = res.reachable ++ link ∷ [] }
    else if dial (endpoint link)
    then record res {
      tcp_reachable = suc res.tcp_reachable;
      reachable = res.reachable ++ link ∷ [];
    }
    else record res { filtered_out = suc res.filtered_out }

-- In input order.
unfoldable pub assemble : (Text → Text) → (Text → Bool) → List Text → PrescanResult → PrescanResult
assemble endpoint dial [] res = res
assemble endpoint dial (link ∷ links) res =
    assemble endpoint dial links (settle endpoint dial link res)

unfoldable pub run_prescan :
    {P : Type 0} → (Text → Bool) → Core P → (Text → Bool) → List Text → PrescanResult
unfolding endpoint_for_link settle assemble uniq_from
run_prescan fits_int c dial links =
    let endpoint = endpoint_for_link fits_int c in
    assemble endpoint dial links (record {
      reachable = [];
      tcp_reachable = 0;
      bypassed = 0;
      filtered_out = 0;
      unique_endpoints = length (uniq_from endpoint [] links);
    })
