-- ===== src/Scanner.antt =====
-- pkg/scanner/scanner.go: the scanner of addresses behind Cloudflare. The configuration, the
-- results, what is saved of a result and what a later scan reads back of it. Speeds are floats of
-- the source: `S` is their type. A duration is its count of nanoseconds. The counts and the port of
-- the configuration are not negative.
pub mod Saving
pub mod Writer
pub mod Latency
pub mod Speed
pub mod Finish
pub mod Client
pub mod Probe
use xray_knife.Prelude.{
  ◌++◌, length, ℕ, ◌+◌, ◌-◌, ◌*◌, ◌/◌, ◌%◌, ◌^◌, Bool, true, false, ◌||◌, List, [], ◌∷◌, map,
  Option, none, some, if◌then◌else◌, ltb, leb, ◌==◌,
}
use xray_knife.Text.{Text, bytes, is_empty, eq_text}
use xray_knife.Dict.{lookup, insert}
use xray_knife.Core.{Fallible, ok, err}

-- What the source asks of a float: the value 0, and `>`.
pub record Speeds (S : Type 0) : Type 0 where
  pub zero_speed : S
  pub exceeds : S → S → Bool

pub record ScanResult (S : Type 0) : Type 0 where
  pub ip : Text
  pub latency : ℕ
  pub latency_ms : ℕ
  pub down_speed : S
  pub up_speed : S
  pub error : Option Text
  pub error_str : Text

pub record ScannerConfig : Type 0 where
  pub subnets : List Text
  pub shuffle_ips : Bool
  pub do_speedtest : Bool
  pub retry_count : ℕ
  pub speedtest_top : ℕ
  pub config_link : Text
  pub resume : Bool
  pub save_to_db : Bool
  pub port : ℕ

-- `scanPort`
unfoldable pub scan_port : ScannerConfig → ℕ
scan_port c = if c.port == 0 || ltb 65535 c.port then 443 else c.port

abbrev pub nanos_per_milli : ℕ
nanos_per_milli = 1000000

-- `time.Duration(ms) * time.Millisecond`, in 64 bits.
abbrev pub of_millis : ℕ → ℕ
of_millis ms = ms * nanos_per_milli % 2 ^ 64

module _ {S : Type 0} where
  -- `&ScanResult{IP: ip}`
  abbrev pub fresh_result : Speeds S → Text → ScanResult S
  fresh_result sp ip = record {
    ip = ip;
    latency = 0;
    latency_ms = 0;
    down_speed = sp.zero_speed;
    up_speed = sp.zero_speed;
    error = none;
    error_str = [];
  }

  unfoldable pub prepare_for_marshal : ScanResult S → ScanResult S
  prepare_for_marshal r = record {
    ip = r.ip;
    latency = r.latency;
    latency_ms = r.latency / nanos_per_milli;
    down_speed = r.down_speed;
    up_speed = r.up_speed;
    error = r.error;
    error_str = elim r.error [ none ↦ [] | some e ↦ e ];
  }

-- A row of the table of scans; `none` is NULL.
pub record DbRow (S : Type 0) : Type 0 where
  pub ip : Text
  pub latency_ms : Option ℕ
  pub download_mbps : Option S
  pub upload_mbps : Option S
  pub error : Option Text

abbrev pub or_else {ℓ} : {A : Type ℓ} → Option A → A → A
or_else none a = a
or_else (some b) a = b

-- COALESCE
abbrev pub coalesce {ℓ} : {A : Type ℓ} → Option A → Option A → Option A
coalesce none o = o
coalesce (some a) o = some a

module _ {S : Type 0} (sp : Speeds S) where
  abbrev pub positive : S → Option S
  positive v = if sp.exceeds v sp.zero_speed then some v else none

  -- The row that `saveToDB` makes of a result.
  unfoldable pub to_row : ScanResult S → DbRow S
  unfolding prepare_for_marshal
  to_row result =
      let r = prepare_for_marshal result in
      let error = if is_empty r.error_str then none else some r.error_str in
      elim r.error [
        | none ↦ record {
          ip = r.ip;
          latency_ms = some r.latency_ms;
          download_mbps = positive r.down_speed;
          upload_mbps = positive r.up_speed;
          error = error;
        }
        | some e ↦ record {
          ip = r.ip;
          latency_ms = none;
          download_mbps = none;
          upload_mbps = none;
          error = error;
        }
      ]

  -- A result that is resumed from its row.
  unfoldable pub of_row : DbRow S → ScanResult S
  of_row row =
      let ms = or_else row.latency_ms 0 in
      let message = or_else row.error [] in
      record {
        ip = row.ip;
        latency = of_millis ms;
        latency_ms = ms;
        down_speed = or_else row.download_mbps sp.zero_speed;
        up_speed = or_else row.upload_mbps sp.zero_speed;
        error = if is_empty message then none else some message;
        error_str = message;
      }

-- The table, one row for each address.
abbrev pub Table : Type 0 → Type 0
Table S = List (Text × DbRow S)

module _ {S : Type 0} where
  -- ON CONFLICT(ip) DO UPDATE
  unfoldable pub merge_row : DbRow S → DbRow S → DbRow S
  merge_row old new = record {
    ip = new.ip;
    latency_ms = coalesce new.latency_ms old.latency_ms;
    download_mbps = coalesce new.download_mbps old.download_mbps;
    upload_mbps = coalesce new.upload_mbps old.upload_mbps;
    error = new.error;
  }

  unfoldable pub upsert_row : DbRow S → Table S → Table S
  unfolding lookup insert merge_row
  upsert_row row table = elim (lookup row.ip table) [
    | none ↦ insert row.ip row table
    | some old ↦ insert row.ip (merge_row old row) table
  ]

  pub upsert_rows : List (DbRow S) → Table S → Table S
  unfolding upsert_row
  upsert_rows [] table = table
  upsert_rows (row ∷ rows) table = upsert_rows rows (upsert_row row table)

  -- One transaction: where the database refuses it, nothing is written.
  unfoldable pub upsert_batch : Option Text → List (DbRow S) → Table S → Fallible (Table S)
  unfolding upsert_rows
  upsert_batch failure rows table = elim failure [
    | some e ↦ err e
    | none ↦ ok (upsert_rows rows table)
  ]

-- The CSV columns of a result.
pub record CsvRow (S : Type 0) : Type 0 where
  pub ip : Text
  pub latency_ms : ℕ
  pub download_mbps : S
  pub upload_mbps : S
  pub error : Text

module _ {S : Type 0} where
  unfoldable pub to_csv : ScanResult S → CsvRow S
  unfolding prepare_for_marshal
  to_csv result =
      let r = prepare_for_marshal result in
      record {
        ip = r.ip;
        latency_ms = r.latency_ms;
        download_mbps = r.down_speed;
        upload_mbps = r.up_speed;
        error = r.error_str;
      }

  -- A row that was read, completed.
  unfoldable pub of_csv : CsvRow S → ScanResult S
  of_csv row = record {
    ip = row.ip;
    latency = of_millis row.latency_ms;
    latency_ms = row.latency_ms;
    down_speed = row.download_mbps;
    up_speed = row.upload_mbps;
    error = if is_empty row.error then none else some row.error;
    error_str = row.error;
  }

-- gocsv and encoding/csv over a file: what is written, with the error of writing it, and what is
-- read. `F` is what a file holds.
pub record CsvLibrary (S F : Type 0) : Type 0 where
  pub marshal : List (CsvRow S) → F × Fallible (Unit {0})
  pub unmarshal : F → Fallible (List (CsvRow S))

module _ {S F : Type 0} (lib : CsvLibrary S F) where
  -- The file afterwards, `none` where there is none; `create` is the error of creating it.
  unfoldable pub save_results_to_csv :
      Option Text → List (ScanResult S) → Option F → Option F × Fallible (Unit {0})
  unfolding to_csv
  save_results_to_csv create results file =
      let (content, answer) = lib.marshal (map to_csv results) in
      if length results == 0 then (file, ok tt) else elim create [
        | some e ↦ (file, err (bytes "failed to create/truncate file for saving: " ++ e))
        | none ↦ (some content, answer)
      ]

  -- `opened` is the answer of opening the file, `ok none` where it is missing.
  unfoldable pub load_results_from_csv : Fallible (Option F) → Fallible (List (ScanResult S))
  unfolding of_csv
  load_results_from_csv opened = elim opened [
    | err e ↦ err e
    | ok none ↦ ok []
    | ok (some content) ↦ elim (lib.unmarshal content) [
      | err e ↦
          if eq_text e (bytes "EOF")
          then ok []
          else err (bytes "failed to parse resume file (must be CSV): " ++ e)
      | ok rows ↦ ok (map of_csv rows)
    ]
  ]

-- What the service has before it scans: results of an earlier scan, and their addresses.
pub record Resumed (S : Type 0) : Type 0 where
  pub initial_results : List (ScanResult S)
  pub scanned_ips : List Text

-- The part of `NewScannerService` that resumes. `rows` is GetCfScanResults, a map in any order,
-- and `csv` the results that are loaded from the file.
unfoldable pub resume_from :
    {S : Type 0}
    → Speeds S
    → ScannerConfig
    → Fallible (List (Text × DbRow S))
    → Fallible (List (ScanResult S))
    → Resumed S
unfolding of_row
resume_from {S = S} sp c rows csv =
    if c.resume
    then if c.save_to_db
      then elim rows [
        | err e ↦ nothing
        | ok table ↦ record {
          initial_results = map (λ entry. of_row sp (entry.1)) table;
          scanned_ips = map (λ entry. entry.0) table;
        }
      ]
      else elim csv [
        | err e ↦ nothing
        | ok found ↦ record { initial_results = found; scanned_ips = map (λ r. r.ip) found }
      ]
    else nothing
  where
    nothing : Resumed S
    nothing = record { initial_results = []; scanned_ips = [] }
