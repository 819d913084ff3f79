-- ===== src/Scanner/Saving.antt =====
-- What is read back of a saved result, from the file and from the table.
use mathlib.Core.Option.{none-ne-some}
use xray_knife.Core.{ok}
use xray_knife.Scanner.Client.{has_byte}
use xray_knife.Prelude.{
  All, length, ℕ, ◌+◌, ◌*◌, ◌/◌, ◌^◌, ◌≤◌, ◌<◌, ◌≡◌, ◌≢◌, refl, sym, ap, ◌∙◌, ◌⊎◌, inl, inr, true,
  false, List, [], ◌∷◌, map, Option, none, some, if◌then◌else◌, arith, Option-cases,
}
use xray_knife.Text.{Text, is_empty, eq_text}
use xray_knife.Text.Equality.{eq_text_refl, eq_text_iff}
use xray_knife.Dict.{lookup, insert, lookup-insert}
use xray_knife.Scanner.{
  Speeds, ScanResult, DbRow, Table, CsvRow, CsvLibrary, save_results_to_csv, load_results_from_csv,
  to_csv, of_csv, to_row, prepare_for_marshal, upsert_row, upsert_rows, merge_row, of_millis,
  nanos_per_milli, coalesce,
}

of_millis-millis :
    (latency : ℕ) → latency < 2 ^ 63 → of_millis (latency / 1000000) ≡ latency / 1000000 * 1000000
of_millis-millis latency h = omega arith

-- A message that is not empty is kept, and the lack of one.
kept_error :
    (error : Option Text)
    → error ≢ some []
    → let message = elim error as (λ x. Text) [ none ↦ [] | some e ↦ e ] in
      (if is_empty message then none else some message) ≡ error
unfolding is_empty
kept_error none h = refl
kept_error (some []) h = absurd (h refl)
kept_error (some (c ∷ e)) h = refl

kept_message :
    (message : Text)
    → elim (if is_empty message then none else some message) as (λ x. Text) [
      | none ↦ []
      | some e ↦ e
    ]
      ≡ message
unfolding is_empty
kept_message [] = refl
kept_message (c ∷ e) = refl

millis-of_millis :
    (latency : ℕ) → latency < 2 ^ 63 → of_millis (latency / 1000000) / 1000000 ≡ latency / 1000000
millis-of_millis latency h = omega arith

-- No carriage return: encoding/csv turns one before a line feed into nothing.
abbrev pub HasNoReturn : Text → Type 0
HasNoReturn s = has_byte 13 s ≡ false

module _ {S : Type 0} where
  abbrev pub IsPlainRow : CsvRow S → Type 0
  IsPlainRow row = HasNoReturn row.ip × HasNoReturn row.error

  abbrev pub message_of : ScanResult S → Text
  message_of r = elim r.error [ none ↦ [] | some e ↦ e ]

  abbrev pub IsStorable : ScanResult S → Type 0
  IsStorable r =
      (r.latency < 2 ^ 63) × (r.error ≢ some []) × HasNoReturn r.ip × HasNoReturn (message_of r)

  -- `back` is what a file keeps of `r`.
  abbrev pub IsKeptAs : ScanResult S → ScanResult S → Type 0
  IsKeptAs r back =
      (back.ip ≡ r.ip)
      × (back.down_speed ≡ r.down_speed)
      × (back.up_speed ≡ r.up_speed)
      × (back.error ≡ r.error)
      × (back.latency ≤ r.latency)
      × (r.latency < back.latency + 1000000)
      × (to_csv back ≡ to_csv r)

  abbrev pub AreKeptAs : List (ScanResult S) → List (ScanResult S) → Type 0
  AreKeptAs [] [] = Unit {0}
  AreKeptAs [] (b ∷ bs) = ⊥
  AreKeptAs (r ∷ rs) [] = ⊥
  AreKeptAs (r ∷ rs) (b ∷ bs) = IsKeptAs r b × AreKeptAs rs bs

  of_csv-to_csv : (r : ScanResult S) → IsStorable r → IsKeptAs r (of_csv (to_csv r))
  unfolding of_csv to_csv prepare_for_marshal
  of_csv-to_csv r (small, worded, plain_ip, plain) = (
    refl,
    refl,
    refl,
    kept_error r.error worded,
    omega (arith, of_millis-millis r.latency small),
    omega (arith, of_millis-millis r.latency small),
    rw (millis-of_millis r.latency small, kept_message) refl,
  )

  each_kept :
      (rs : List (ScanResult S)) → All IsStorable rs → AreKeptAs rs (map of_csv (map to_csv rs))
  each_kept [] h = tt
  each_kept (r ∷ rs) (h, hs) = (of_csv-to_csv r h, each_kept rs hs)

  each_plain : (rs : List (ScanResult S)) → All IsStorable rs → All IsPlainRow (map to_csv rs)
  unfolding to_csv prepare_for_marshal
  each_plain [] h = tt
  each_plain (r ∷ rs) (h, hs) = ((h.2, h.3), each_plain rs hs)

module _ {S F : Type 0} (lib : CsvLibrary S F) where
  saved_content :
      (r : ScanResult S) (rs : List (ScanResult S)) (old : Option F)
      → (save_results_to_csv lib none (r ∷ rs) old).0 ≡ some (lib.marshal (map to_csv (r ∷ rs))).0
  unfolding save_results_to_csv
  saved_content r rs old = ground arith

  loaded_rows :
      (content : F) (rows : List (CsvRow S))
      → lib.unmarshal content ≡ ok rows
      → load_results_from_csv lib (ok (some content)) ≡ ok (map of_csv rows)
  unfolding load_results_from_csv
  loaded_rows content rows h = rw (load_results_from_csv, h) refl

-- Where the CSV library reads back the rows that it wrote, as long as there is one and none holds a
-- carriage return: results that are saved to a file that can be created and then loaded keep, one by
-- one and in order, their addresses, their speeds and their errors, if there is a result, none has
-- an error with an empty message, no address or message holds a carriage return and no latency has
-- more than 63 bits. Each latency is rounded down to a millisecond, and saving again gives the same
-- rows.
pub load_results_from_csv-save_results_to_csv :
    {S F : Type 0} (lib : CsvLibrary S F) (rs : List (ScanResult S)) (old : Option F)
    → ((rows : List (CsvRow S))
        → 0 < length rows
        → All IsPlainRow rows
        → lib.unmarshal (lib.marshal rows).0 ≡ ok rows)
    → 0 < length rs
    → All IsStorable rs
    → (back : List (ScanResult S)) × (load_results_from_csv lib
          (ok (save_results_to_csv lib none rs old).0)
        ≡ ok back)
      × AreKeptAs rs back
unfolding load_results_from_csv save_results_to_csv
load_results_from_csv-save_results_to_csv lib [] old reads some_result storable =
    absurd (omega (arith, some_result))
load_results_from_csv-save_results_to_csv lib (r ∷ rs) old reads some_result storable = (
  map of_csv (map to_csv (r ∷ rs)),
  ap (λ o. load_results_from_csv lib (ok o)) (saved_content lib r rs old)
      ∙ loaded_rows lib (lib.marshal (map to_csv (r ∷ rs))).0 (map to_csv (r ∷ rs))
          (reads (map to_csv (r ∷ rs)) (omega arith) (each_plain (r ∷ rs) storable)),
  each_kept (r ∷ rs) storable,
)

lookup-insert_self :
    {V : Type 0} (k : Text) (v : V) (m : List (Text × V)) → lookup k (insert k v m) ≡ some v
lookup-insert_self k v m = rw (lookup-insert, eq_text_refl) refl

module _ {S : Type 0} (sp : Speeds S) where
  -- The result that was saved last among those of an address.
  unfoldable pub last_of : Text → List (ScanResult S) → Option (ScanResult S)
  last_of ip [] = none
  last_of ip (r ∷ rs) = coalesce (last_of ip rs) (if eq_text r.ip ip then some r else none)

  last_of-none :
      (ip : Text) (r : ScanResult S) (rs : List (ScanResult S))
      → last_of ip (r ∷ rs) ≡ none
      → (last_of ip rs ≡ none) × (eq_text r.ip ip ≡ false)
  unfolding last_of
  last_of-none ip r rs h = ground arith

  last_of-some :
      (ip : Text) (r s : ScanResult S) (rs : List (ScanResult S))
      → last_of ip (s ∷ rs) ≡ some r
      → (last_of ip rs ≡ some r) ⊎ ((last_of ip rs ≡ none) × (eq_text s.ip ip ≡ true) × (s ≡ r))
  unfolding last_of
  last_of-some ip r s rs h = ground arith

  -- The row tells the latency of a result with no error, and the error of one that failed; an error
  -- with an empty message is not told.
  abbrev pub Shows : ScanResult S → DbRow S → Type 0
  Shows r row =
      ((r.error ≡ none)
        × (row.error ≡ none)
        × (row.latency_ms ≡ some (r.latency / nanos_per_milli)))
      ⊎ (((e : Text) × (e ≢ []) × (r.error ≡ some e) × (row.error ≡ some e))
          ⊎ ((r.error ≡ some []) × (row.error ≡ none)))

  to_row-ip : (r : ScanResult S) → (to_row sp r).ip ≡ r.ip
  unfolding to_row prepare_for_marshal
  to_row-ip r = ground arith

  to_row-Shows : (r : ScanResult S) → Shows r (to_row sp r)
  unfolding to_row prepare_for_marshal is_empty
  to_row-Shows r = elim (Option-cases r.error) [
    | inl e ↦ inl (e, rw (to_row, e, prepare_for_marshal, e) refl, rw (to_row, e) refl)
    | inr ([], e) ↦ inr (inr (e, rw (to_row, e, prepare_for_marshal, e) refl))
    | inr (c ∷ m, e) ↦ inr (inl (c ∷ m, λ n. cc n, e, rw (to_row, e, prepare_for_marshal, e) refl))
  ]

  merge_row-Shows :
      (r : ScanResult S) (old row : DbRow S) → Shows r row → Shows r (merge_row old row)
  unfolding merge_row
  merge_row-Shows r old row (inl (e, f, g)) = inl (e, f, rw g refl)
  merge_row-Shows r old row (inr w) = inr w

  upsert-row_self :
      (r : ScanResult S) (row : DbRow S) (table : Table S)
      → Shows r row
      → (found : DbRow S) × (lookup row.ip (upsert_row row table) ≡ some found) × Shows r found
  unfolding upsert_row
  upsert-row_self r row table h = elim (Option-cases (lookup row.ip table)) [
    | inl e ↦ (row, rw (upsert_row, e) (lookup-insert_self row.ip row table), h)
    | inr (old, e) ↦ (
      merge_row old row,
      rw (upsert_row, e) (lookup-insert_self row.ip (merge_row old row) table),
      merge_row-Shows r old row h,
    )
  ]

  upsert-row_other :
      (ip : Text) (row : DbRow S) (table : Table S)
      → eq_text row.ip ip ≡ false
      → lookup ip (upsert_row row table) ≡ lookup ip table
  unfolding upsert_row
  upsert-row_other ip row table h = elim (Option-cases (lookup row.ip table)) [
    | inl e ↦ rw (upsert_row, e, lookup-insert, h) refl
    | inr (old, e) ↦ rw (upsert_row, e, lookup-insert, h) refl
  ]

  unaffected :
      (ip : Text) (rs : List (ScanResult S)) (table : Table S)
      → last_of ip rs ≡ none
      → lookup ip (upsert_rows (map (to_row sp) rs) table) ≡ lookup ip table
  unfolding upsert_rows
  unaffected ip [] table h = refl
  unaffected ip (r ∷ rs) table h =
      let (e, f) = last_of-none ip r rs h in
      unaffected ip rs (upsert_row (to_row sp r) table) e
      ∙ upsert-row_other ip (to_row sp r) table (rw to_row-ip f)

  -- After a batch is written, the row of an address shows the last result of the batch for it: its
  -- latency, and no error, where it has no error; its error, where that has a message; and no error
  -- where it has one with an empty message.
  pub lookup-upsert_rows :
      (ip : Text) (r : ScanResult S) (rs : List (ScanResult S)) (table : Table S)
      → last_of ip rs ≡ some r
      → (row : DbRow S) × (lookup ip (upsert_rows (map (to_row sp) rs) table) ≡ some row)
        × Shows r row
  unfolding upsert_rows last_of
  lookup-upsert_rows ip r [] table h = absurd (none-ne-some r h)
  lookup-upsert_rows ip r (s ∷ rs) table h = elim (last_of-some ip r s rs h) [
    | inl e ↦ lookup-upsert_rows ip r rs (upsert_row (to_row sp s) table) e
    | inr (e, f, g) ↦
        let w = upsert-row_self r (to_row sp r) table (to_row-Shows r) in
        (
          w.0,
          unaffected ip rs (upsert_row (to_row sp s) table) e
              ∙ ap (λ (t : ScanResult S). lookup ip (upsert_row (to_row sp t) table)) g
              ∙ ap (λ (k : Text). lookup k (upsert_row (to_row sp r) table))
                  (sym (
                    to_row-ip r
                    ∙ ap (λ (t : ScanResult S). t.ip) (sym g)
                    ∙ (eq_text_iff s.ip ip).0 f))
              ∙ w.1,
          w.2,
        )
  ]
