-- ===== src/Scanner/Writer/Rows.antt =====
-- The rows that the goroutine gives to the database, and the table that they make.
use mathlib.Core.Path.{subst}
use xray_knife.Prelude.{
  In, ◌⊎◌, suc, ◌+◌, map, none, some, ==_iff, ℕ, ◌≡◌, refl, sym, ap, ◌∙◌, inl, inr, List, [], ◌∷◌,
  ◌++◌, Option, ◌==◌, length, arith, append_assoc, append-nil, Bool-cases,
}
use xray_knife.Text.{Text}
use xray_knife.Scanner.{Speeds, ScanResult, Table, DbRow, to_row, upsert_rows, prepare_for_marshal}
use xray_knife.Scanner.Writer.{WriterEvent, measured, prepare_batch, write_at}

module _ {S : Type 0} where
  abbrev pub all_rows : List (List (DbRow S)) → List (DbRow S)
  all_rows [] = []
  all_rows (rows ∷ given) = rows ++ all_rows given

  pub all_rows-append :
      (given : List (List (DbRow S))) (rows : List (DbRow S))
      → all_rows (given ++ (rows ∷ [])) ≡ all_rows given ++ rows
  all_rows-append [] rows = append-nil rows
  all_rows-append (g ∷ given) rows =
      ap (λ (rest : List (DbRow S)). g ++ rest) (all_rows-append given rows)
      ∙ sym (append_assoc g (all_rows given) rows)

module _ {S : Type 0} (sp : Speeds S) (all : List (WriterEvent S)) where
  -- A state of result `n`: its address and latency never change, and its speeds and error are those
  -- of the start or of a speed test of it.
  abbrev pub IsStateOf : (ℕ → ScanResult S) → ℕ → ScanResult S → Type 0
  IsStateOf store n r =
      (r.ip ≡ (store n).ip)
      × (r.latency ≡ (store n).latency)
      × (((r.down_speed ≡ (store n).down_speed)
            × (r.up_speed ≡ (store n).up_speed)
            × (r.error ≡ (store n).error))
          ⊎ In (measured n r.down_speed r.up_speed r.error) all)

  pub prepare_batch-IsStateOf :
      (batch : List ℕ) (store now : ℕ → ScanResult S)
      → ((n : ℕ) → IsStateOf store n (now n))
      → (n : ℕ) → IsStateOf store n (prepare_batch batch now n)
  unfolding prepare_batch write_at prepare_for_marshal
  prepare_batch-IsStateOf [] store now h n = h n
  prepare_batch-IsStateOf (m ∷ batch) store now h n =
      prepare_batch-IsStateOf batch store (write_at m (prepare_for_marshal (now m)) now)
        (λ k. elim (Bool-cases (k == m)) [
          | inl e ↦
              rw (write_at, e)
                (subst (λ (j : ℕ). IsStateOf store j (prepare_for_marshal (now m)))
                  (sym ((==_iff k m).0 e)) (h m))
          | inr e ↦ rw (write_at, e) (h k)
        ])
        n

  abbrev pub IsRowOf : (ℕ → ScanResult S) → DbRow S → ℕ → Type 0
  IsRowOf store row n = (r : ScanResult S) × (row ≡ to_row sp r) × IsStateOf store n r

  abbrev pub AreRowsOf : (ℕ → ScanResult S) → List (DbRow S) → List ℕ → Type 0
  AreRowsOf store [] [] = Unit {0}
  AreRowsOf store [] (n ∷ ns) = ⊥
  AreRowsOf store (row ∷ rows) [] = ⊥
  AreRowsOf store (row ∷ rows) (n ∷ ns) = IsRowOf store row n × AreRowsOf store rows ns

  pub AreRowsOf-append :
      (store : ℕ → ScanResult S) (rows more : List (DbRow S)) (ms ns : List ℕ)
      → AreRowsOf store rows ms
      → AreRowsOf store more ns
      → AreRowsOf store (rows ++ more) (ms ++ ns)
  AreRowsOf-append store [] more [] ns h k = k
  AreRowsOf-append store [] more (m ∷ ms) ns h k = elim h [ ]
  AreRowsOf-append store (row ∷ rows) more [] ns h k = elim h [ ]
  AreRowsOf-append store (row ∷ rows) more (m ∷ ms) ns (h, hs) k =
      (h, AreRowsOf-append store rows more ms ns hs k)

  pub rows_of_batch :
      (store now : ℕ → ScanResult S) (batch : List ℕ)
      → ((n : ℕ) → IsStateOf store n (now n))
      → AreRowsOf store (map (λ n. to_row sp (now n)) batch) batch
  rows_of_batch store now [] h = tt
  rows_of_batch store now (n ∷ batch) h = ((now n, refl, h n), rows_of_batch store now batch h)

module _ {S : Type 0} (refuses : ℕ → Option Text) where
  -- What the batches make of a table, from number `n` on; one that is refused changes nothing.
  abbrev pub replay : ℕ → List (List (DbRow S)) → Table S → Table S
  replay n [] table = table
  replay n (rows ∷ given) table =
      replay (suc n) given (elim (refuses n) [ some e ↦ table | none ↦ upsert_rows rows table ])

  pub replay-append :
      (n : ℕ) (given : List (List (DbRow S))) (rows : List (DbRow S)) (table : Table S)
      → replay n (given ++ (rows ∷ [])) table
        ≡ elim (refuses (n + length given)) as (λ o. Table S) [
          | some e ↦ replay n given table
          | none ↦ upsert_rows rows (replay n given table)
        ]
  replay-append n [] rows table =
      ap
        (λ (k : ℕ). elim (refuses k) as (λ o. Table S) [
          | some e ↦ table
          | none ↦ upsert_rows rows table
        ])
        (omega arith)
  replay-append n (g ∷ given) rows table =
      let next : Table S = elim (refuses n) as (λ o. Table S) [
        | some e ↦ table
        | none ↦ upsert_rows g table
      ] in
      replay-append (suc n) given rows next
      ∙ ap
          (λ (k : ℕ). elim (refuses k) as (λ o. Table S) [
            | some e ↦ replay (suc n) given next
            | none ↦ upsert_rows rows (replay (suc n) given next)
          ])
          (omega arith)
