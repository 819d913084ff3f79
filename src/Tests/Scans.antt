-- ===== src/Tests/Scans.antt =====
-- Tests of the scanner.
use mathlib.Core.Path.{subst}
use mathlib.Core.Option.{none-ne-some, some-injective}
use xray_knife.Prelude.{
  Bool, leb, ℕ, ◌≡◌, ◌↔◌, ap, ◌∙◌, Bool-cases, ltb, ◌≤◌, ◌<◌, refl, inl, inr, ◌⊎◌, true, false,
  List, [], ◌∷◌, Option, none, some, length, map, arith, In, All, if◌then◌else◌, ◌==◌,
}
use xray_knife.Prelude.Reordered.{IsReordered, nil, cons, swap, trans}
use xray_knife.Text.{Text, bytes, eq_text, is_empty, contains, has_prefix, decimal}
use xray_knife.Dict.{lookup, insert}
use xray_knife.Core.{Fallible, ok, err, engine_for_scheme}
use xray_knife.Prescan.{join_host_port}
use xray_knife.Addresses.{
  Cidr, mask, network, eq_ip, is_v4, to4, in_subnet, carry, increment_ip, wrap, inc, enumerate,
  subnet_ips, cidr_to_list_ip, to_int, size_of, cidr_size, normalize_cidr, is_ipv6,
}
use xray_knife.Addresses.Block.{four_bytes-AvoidsMapped}
use xray_knife.Scanner.{
  CsvRow, CsvLibrary, save_results_to_csv, load_results_from_csv, Speeds, ScanResult, ScannerConfig,
  DbRow, scan_port, prepare_for_marshal, to_row, of_row, merge_row, upsert_row, upsert_rows,
  upsert_batch, to_csv, of_csv, resume_from,
}
use xray_knife.Scanner.Saving.{
  IsPlainRow, IsStorable, AreKeptAs, load_results_from_csv-save_results_to_csv, lookup-upsert_rows,
  Shows, last_of,
}
use xray_knife.Scanner.Writer.{WriterEvent, received, measured, ticked, closed, run_writer}
use xray_knife.Scanner.Latency.{
  Net, Targets, is_scanned, loop_over, addresses_of, add_subnet, collect_targets, run_latency_scan,
}
use xray_knife.Scanner.Latency.Listing.{IsScannable}
use xray_knife.Scanner.Latency.Submitted.{IsWanted, run_latency_scan_lem}
use xray_knife.Scanner.Speed.{
  succeeded, already_tested, top_results, speed_targets, IsSorted, speed_targets_best,
}
use xray_knife.Scanner.Finish.{
  ltb_text, add_initial, combined_results, comes_before, final_results, lookup-combined_results,
  first_of,
}
use xray_knife.Scanner.Client.{
  dial_loop, dial_with_retry, struct, split_host_port, set_address, cut_at, has_byte,
  split_bracketed, split_plain, split_parts, target_address, selected_core,
  create_client_from_config,
}
use xray_knife.Scanner.Client.Attempts.{
  EndsWith, dial_with_retry-EndsWith, selected_core-engine_for_scheme,
}
use xray_knife.Scanner.Client.Address.{set_address-split_host_port}
use xray_knife.Scanner.Probe.{
  LatencyWorld, scan_ip_for_latency, measure_latency, IsAnswered, scan_ip_for_latency_lem,
}
use xray_knife.Tests.Subnets.{four_ips, four_ips-IsCidr}

scans_code : Unit {0}
unfolding eq_text is_empty contains has_prefix lookup insert join_host_port mask network eq_ip is_v4
    to4 in_subnet carry increment_ip wrap inc enumerate subnet_ips cidr_to_list_ip to_int size_of
    cidr_size normalize_cidr is_ipv6 scan_port prepare_for_marshal to_row of_row merge_row
    upsert_row upsert_batch to_csv of_csv resume_from run_writer is_scanned loop_over addresses_of
    add_subnet collect_targets run_latency_scan succeeded already_tested top_results speed_targets
    ltb_text add_initial combined_results comes_before final_results dial_loop dial_with_retry
    cut_at has_byte split_bracketed split_plain split_parts split_host_port set_address
    target_address selected_core create_client_from_config measure_latency scan_ip_for_latency
    first_of last_of
scans_code = tt

-- Speeds in tests are whole numbers.
abbrev whole_speeds : Speeds ℕ
whole_speeds = record { zero_speed = 0; exceeds = λ a b. ltb b a }

abbrev fast : ScanResult ℕ
fast = record {
  ip = bytes "1.1.1.1";
  latency = 12345678;
  latency_ms = 0;
  down_speed = 90;
  up_speed = 0;
  error = none;
  error_str = [];
}

abbrev broken_ip : ScanResult ℕ
broken_ip = record {
  ip = bytes "1.1.1.2";
  latency = 0;
  latency_ms = 0;
  down_speed = 0;
  up_speed = 0;
  error = some (bytes "refused");
  error_str = [];
}

-- A CSV library whose files are their rows, and which finds no header in an empty one.
abbrev row_files : CsvLibrary ℕ (List (CsvRow ℕ))
row_files = record {
  marshal = λ rows. (rows, ok tt);
  unmarshal = λ rows. if length rows == 0 then err (bytes "EOF") else ok rows;
}

row_files_read :
    (rows : List (CsvRow ℕ))
    → 0 < length rows
    → All IsPlainRow rows
    → row_files.unmarshal (row_files.marshal rows).0 ≡ ok rows
row_files_read rows some_row plain = ground arith

storable : All IsStorable (fast ∷ broken_ip ∷ [])
unfolding scans_code
storable = ((omega arith, λ e. cc e, refl, refl), ((omega arith, λ e. cc e, refl, refl), tt))

load_results_from_csv-save_results_to_csv_example :
    (back : List (ScanResult ℕ)) × (load_results_from_csv row_files
        (ok (save_results_to_csv row_files none (fast ∷ broken_ip ∷ []) none).0)
      ≡ ok back)
    × AreKeptAs (fast ∷ broken_ip ∷ []) back
load_results_from_csv-save_results_to_csv_example =
    load_results_from_csv-save_results_to_csv row_files (fast ∷ broken_ip ∷ []) none row_files_read
      (omega arith) storable

lookup-upsert_rows_example :
    (row : DbRow ℕ) × (lookup
        (bytes "1.1.1.1")
        (upsert_rows (map (to_row whole_speeds) (fast ∷ broken_ip ∷ [])) [])
      ≡ some row)
    × Shows whole_speeds fast row
unfolding scans_code
lookup-upsert_rows_example =
    lookup-upsert_rows whole_speeds (bytes "1.1.1.1") fast (fast ∷ broken_ip ∷ []) [] refl

abbrev scan_config : ScannerConfig
scan_config = record {
  subnets = bytes "s" ∷ bytes "t" ∷ [];
  shuffle_ips = false;
  do_speedtest = true;
  retry_count = 1;
  speedtest_top = 1;
  config_link = [];
  resume = true;
  save_to_db = true;
  port = 0;
}

-- The database refuses the first batch and takes the second one.
abbrev locked_once : ℕ → Option Text
locked_once n = if n == 0 then some (bytes "locked") else none

abbrev writer_events : List (WriterEvent ℕ)
writer_events =
    received 0 true
    ∷ ticked
    ∷ received 1 false
    ∷ measured 1 70 8 none
    ∷ closed
    ∷ received 2 true
    ∷ []

as_is-IsReordered : {A : Type 0} (xs : List A) → IsReordered xs xs
as_is-IsReordered [] = nil
as_is-IsReordered (x ∷ xs) = cons x (as_is-IsReordered xs)

-- Of the two subnets of the configuration only "s" is read.
abbrev one_net : Net
one_net = record {
  parse_cidr = λ s. if eq_text s (bytes "s") then some four_ips else none;
  show_ip = λ ip. ip;
  rounds = 5;
}

one_net-IsScannable :
    (cidr : Text) (subnet : Cidr)
    → In cidr scan_config.subnets
    → one_net.parse_cidr cidr ≡ some subnet
    → IsScannable one_net subnet
unfolding scans_code
one_net-IsScannable cidr subnet (inl e) h =
    subst (λ (c : Cidr). IsScannable one_net c)
      (some-injective four_ips subnet (ap one_net.parse_cidr e ∙ h))
      (four_ips-IsCidr, four_bytes-AvoidsMapped four_ips refl, omega arith, omega arith)
one_net-IsScannable cidr subnet (inr (inl e)) h =
    absurd (none-ne-some subnet (ap one_net.parse_cidr e ∙ h))
one_net-IsScannable cidr subnet (inr (inr i)) h = elim i [ ]

-- The context is done before the second subnet.
abbrev soon_done : ℕ → Bool
soon_done i = leb 1 i

run_latency_scan_lem_example :
    (out : Targets) × (run_latency_scan one_net scan_config (λ ips. ips) [] soon_done 0 (ok tt)
      ≡ some (out, err (bytes "context canceled")))
    × ((ip : Text) → In ip out.submitted ↔ IsWanted one_net [] (bytes "s" ∷ []) ip)
unfolding scans_code
run_latency_scan_lem_example =
    run_latency_scan_lem one_net scan_config (λ ips. ips) as_is-IsReordered [] soon_done 0 (ok tt)
      one_net-IsScannable

abbrev insert_by_latency : ScanResult ℕ → List (ScanResult ℕ) → List (ScanResult ℕ)
insert_by_latency r [] = r ∷ []
insert_by_latency r (s ∷ rs) =
    let rest = insert_by_latency r rs in if ltb s.latency r.latency then s ∷ rest else r ∷ s ∷ rs

abbrev by_latency : List (ScanResult ℕ) → List (ScanResult ℕ)
by_latency [] = []
by_latency (r ∷ rs) = insert_by_latency r (by_latency rs)

insert_by_latency-IsReordered :
    (r : ScanResult ℕ) (rs : List (ScanResult ℕ)) → IsReordered (insert_by_latency r rs) (r ∷ rs)
insert_by_latency-IsReordered r [] = as_is-IsReordered (r ∷ [])
insert_by_latency-IsReordered r (s ∷ rs) = elim (Bool-cases (ltb s.latency r.latency)) [
  | inl e ↦ rw e (trans (cons s (insert_by_latency-IsReordered r rs)) (swap s r rs))
  | inr e ↦ rw e (as_is-IsReordered (r ∷ s ∷ rs))
]

by_latency-IsReordered : (rs : List (ScanResult ℕ)) → IsReordered (by_latency rs) rs
by_latency-IsReordered [] = nil
by_latency-IsReordered (r ∷ rs) =
    trans (insert_by_latency-IsReordered r (by_latency rs)) (cons r (by_latency-IsReordered rs))

insert_by_latency-least :
    (n : ℕ) (r : ScanResult ℕ) (rs : List (ScanResult ℕ))
    → n ≤ r.latency
    → All (λ s. n ≤ s.latency) rs
    → All (λ s. n ≤ s.latency) (insert_by_latency r rs)
insert_by_latency-least n r [] h k = (h, tt)
insert_by_latency-least n r (s ∷ rs) h k = ground (arith, insert_by_latency-least n r rs)

insert_by_latency-IsSorted :
    (r : ScanResult ℕ) (rs : List (ScanResult ℕ)) → IsSorted rs → IsSorted (insert_by_latency r rs)
insert_by_latency-IsSorted r [] h = (tt, tt)
insert_by_latency-IsSorted r (s ∷ rs) h = elim (Bool-cases (ltb s.latency r.latency)) [
  | inl e ↦ rw e (
    insert_by_latency-least s.latency r rs (ground arith) (h.0),
    insert_by_latency-IsSorted r rs (h.1),
  )
  | inr e ↦ rw e ((ground arith, at_least r.latency s.latency rs (ground arith) (h.0)), h)
]
  where
    at_least :
        (m n : ℕ) (rs : List (ScanResult ℕ))
        → m ≤ n
        → All (λ s. n ≤ s.latency) rs
        → All (λ s. m ≤ s.latency) rs
    at_least m n [] l h = tt
    at_least m n (r ∷ rs) l h = (omega (arith, h.0), at_least m n rs l (h.1))

by_latency-IsSorted : (rs : List (ScanResult ℕ)) → IsSorted (by_latency rs)
by_latency-IsSorted [] = tt
by_latency-IsSorted (r ∷ rs) = insert_by_latency-IsSorted r (by_latency rs) (by_latency-IsSorted rs)

speed_targets_best_example :
    let best = top_results by_latency 1 (fast ∷ broken_ip ∷ []) in
    let tested = speed_targets whole_speeds by_latency 1 (fast ∷ broken_ip ∷ []) in
    (length tested ≤ 1)
    × ((r : ScanResult ℕ)
        → In r tested
        → In r (fast ∷ broken_ip ∷ [])
          × (succeeded r ≡ true)
          × (already_tested whole_speeds r ≡ false))
    × ((r s : ScanResult ℕ)
        → In r tested
        → In s (fast ∷ broken_ip ∷ [])
        → succeeded s ≡ true
        → In s best ⊎ (r.latency ≤ s.latency))
speed_targets_best_example =
    speed_targets_best whole_speeds by_latency by_latency-IsReordered by_latency-IsSorted 1
      (fast ∷ broken_ip ∷ [])

abbrev third_time : ℕ → Fallible ℕ
third_time n = if n == 2 then ok 7 else err (bytes "refused")

dial_with_retry-EndsWith_example :
    EndsWith
      (bytes "1.1.1.1:443")
      third_time
      (λ n. none)
      0
      3
      (dial_with_retry (bytes "1.1.1.1:443") third_time (λ n. none) 2)
dial_with_retry-EndsWith_example =
    dial_with_retry-EndsWith (bytes "1.1.1.1:443") third_time (λ n. none) 2

dial_tests :
    dial_with_retry (bytes "1.1.1.1:443") third_time (λ n. none) 1
    ≡ err (bytes "all 2 connection attempts to 1.1.1.1:443 failed, last error: refused")
unfolding scans_code decimal
dial_tests = refl

selected_core-engine_for_scheme_example :
    selected_core (bytes "hy2") ≡ engine_for_scheme (bytes "hy2")
selected_core-engine_for_scheme_example = selected_core-engine_for_scheme (bytes "hy2")

set_address-split_host_port_example :
    (new : Text) × (set_address
        (struct none (some (record { can_set = true; content = some (bytes "1.2.3.4:2408") })))
        (bytes "::1")
      ≡ ok (struct none (some (record { can_set = true; content = some new }))))
    × (split_host_port new ≡ ok (bytes "::1", bytes "2408"))
unfolding scans_code
set_address-split_host_port_example =
    set_address-split_host_port (bytes "1.2.3.4:2408") (bytes "1.2.3.4") (bytes "2408")
      (bytes "::1") refl (refl, refl)

abbrev good_answer : LatencyWorld
good_answer = record {
  new_request = ok tt;
  create_client = err (bytes "no link");
  request = ok 204;
  read_body = ok tt;
  elapsed = 5000;
}

scan_ip_for_latency_lem_example :
    let r = scan_ip_for_latency whole_speeds good_answer scan_config (bytes "1.1.1.1") in
    (r.ip ≡ bytes "1.1.1.1")
    × ((IsAnswered good_answer scan_config × (r.error ≡ none) × (r.latency ≡ 5000))
        ⊎ ((¬ IsAnswered good_answer scan_config)
            × ((e : Text) × (r.error ≡ some e))
            × (r.latency ≡ 0)))
scan_ip_for_latency_lem_example =
    scan_ip_for_latency_lem whole_speeds good_answer scan_config (bytes "1.1.1.1")

lookup-combined_results_example :
    lookup
      (bytes "1.1.1.2")
      (combined_results scan_config (broken_ip ∷ []) ((bytes "1.1.1.1", fast) ∷ []))
    ≡ some broken_ip
unfolding scans_code
lookup-combined_results_example =
    lookup-combined_results scan_config (bytes "1.1.1.2") (broken_ip ∷ [])
      ((bytes "1.1.1.1", fast) ∷ [])
