-- ===== src/Scanner/Writer/Held.antt =====
-- What the goroutine holds of the results that it has taken, through a save and through the writes
-- to the store.
use mathlib.Core.Path.{subst}
use xray_knife.Prelude.{
  In, map, none, some, ==_iff, ℕ, ◌<◌, ◌≡◌, refl, sym, ap, ◌∙◌, ◌⊎◌, inl, inr, Bool, true, false,
  ◌||◌, not, List, [], ◌∷◌, ◌++◌, Option, ◌==◌, length, arith, append_assoc, append-nil, Bool-cases,
}
use xray_knife.Text.{Text}
use xray_knife.Core.{ok, err}
use xray_knife.Scanner.{
  Speeds, ScanResult, ScannerConfig, Table, DbRow, to_row, upsert_rows, upsert_batch,
}
use xray_knife.Scanner.Writer.{
  WriterEvent, measured, prepare_batch, write_at, save_batch_size, Writer, stop_writer,
  save_batch_to_db, take_result, record_speeds,
}
use xray_knife.Scanner.Writer.Rows.{
  all_rows, all_rows-append, IsStateOf, prepare_batch-IsStateOf, AreRowsOf, AreRowsOf-append,
  rows_of_batch, replay, replay-append,
}

empty_length : (ns : List ℕ) → (length ns == 0) ≡ true → ns ≡ []
empty_length [] h = refl
empty_length (n ∷ ns) h = absurd (ground arith)

module _ {S : Type 0} (sp : Speeds S) (c : ScannerConfig) (refuses : ℕ → Option Text) where
  module _ (all : List (WriterEvent S)) (store : ℕ → ScanResult S) (table : Table S) where
    -- The rows given to the database are those of the first results that were taken, one for each
    -- and in order, the batch holds the others, and the table is what the batches make of it.
    pub record IsHeld (taken : List ℕ) (w : Writer S) : Type 0 where
      pub saved : List ℕ
      pub whole : saved ++ w.batch ≡ taken
      pub rows : AreRowsOf sp all store (all_rows w.given) saved
      pub replayed : w.table ≡ replay refuses 0 w.given table
      pub same : (n : ℕ) → IsStateOf sp all store n (w.store n)

    -- And the batch is not full, and empty once the goroutine has returned.
    abbrev pub IsKept : List ℕ → Writer S → Type 0
    IsKept taken w =
        IsHeld taken w
        × (length w.batch < save_batch_size)
        × ((w.returned ≡ false) ⊎ (w.batch ≡ []))

    nothing_waits :
        (taken : List ℕ) (w : Writer S)
        → IsHeld taken w
        → c.save_to_db ≡ true
        → (not c.save_to_db || length w.batch == 0) ≡ true
        → w.batch ≡ []
    nothing_waits taken w h on t = empty_length w.batch (rw on at t)

    -- What a save does where there is something to save.
    batch_saved :
        (taken : List ℕ) (w : Writer S)
        → IsHeld taken w
        → (not c.save_to_db || length w.batch == 0) ≡ false
        → IsHeld taken (save_batch_to_db sp c refuses w)
    unfolding save_batch_to_db upsert_batch
    batch_saved taken w h t =
        let now = prepare_batch w.batch w.store in
        let rows = map (λ n. to_row sp (now n)) w.batch in
        let kept = prepare_batch-IsStateOf sp all w.batch store w.store h.same in
        rw (save_batch_to_db, t)
          (record {
            saved = h.saved ++ w.batch;
            whole = append-nil (h.saved ++ w.batch) ∙ h.whole;
            rows =
                subst (λ (rs : List (DbRow S)). AreRowsOf sp all store rs (h.saved ++ w.batch))
                  (sym (all_rows-append w.given rows))
                  (AreRowsOf-append sp all store (all_rows w.given) rows h.saved w.batch h.rows
                    (rows_of_batch sp all store now w.batch kept));
            replayed =
                table_after (refuses (length w.given)) rows w.table (replay refuses 0 w.given table)
                  h.replayed
                ∙ ap
                    (λ (k : ℕ). elim (refuses k) as (λ o. Table S) [
                      | some e ↦ replay refuses 0 w.given table
                      | none ↦ upsert_rows rows (replay refuses 0 w.given table)
                    ])
                    (omega arith)
                ∙ sym (replay-append refuses 0 w.given rows table);
            same = kept;
          })
      where
        table_after :
            (o : Option Text) (rows : List (DbRow S)) (t u : Table S)
            → t ≡ u
            → (elim (upsert_batch o rows t) as (λ x. Table S) [ err e ↦ t | ok v ↦ v ])
              ≡ (elim o as (λ x. Table S) [ some e ↦ u | none ↦ upsert_rows rows u ])
        table_after none rows t u h = ap (upsert_rows rows) h
        table_after (some e) rows t u h = h

    pub save_batch_to_db-IsHeld :
        (taken : List ℕ) (w : Writer S)
        → c.save_to_db ≡ true
        → w.returned ≡ false
        → IsHeld taken w
        → IsHeld taken (save_batch_to_db sp c refuses w)
          × ((save_batch_to_db sp c refuses w).batch ≡ [])
          × ((save_batch_to_db sp c refuses w).returned ≡ false)
    unfolding save_batch_to_db
    save_batch_to_db-IsHeld taken w on alive h =
        elim (Bool-cases (not c.save_to_db || length w.batch == 0)) [
          | inl t ↦ rw (save_batch_to_db, t) (h, nothing_waits taken w h on t, alive)
          | inr t ↦ (
            batch_saved taken w h t,
            rw (save_batch_to_db, t) refl,
            rw (save_batch_to_db, t) alive,
          )
        ]

    pub saved-IsKept :
        (taken : List ℕ) (w : Writer S)
        → c.save_to_db ≡ true
        → w.returned ≡ false
        → IsHeld taken w
        → IsKept taken (save_batch_to_db sp c refuses w)
          × IsKept taken (stop_writer (save_batch_to_db sp c refuses w))
    saved-IsKept taken w on alive h =
        let (k, none_left, running) = save_batch_to_db-IsHeld taken w on alive h in
        let few = ap (λ (ns : List ℕ). length ns) none_left in
        ((k, omega arith, inr none_left), (stopped k, omega arith, inr none_left))
      where
        stopped : {v : Writer S} → IsHeld taken v → IsHeld taken (stop_writer v)
        stopped k = record {
          saved = k.saved;
          whole = k.whole;
          rows = k.rows;
          replayed = k.replayed;
          same = k.same;
        }

    pub take_result-IsHeld :
        (n : ℕ) (room : Bool) (taken : List ℕ) (w : Writer S)
        → IsHeld taken w
        → IsHeld (taken ++ (n ∷ [])) (take_result sp c refuses n room w)
    unfolding take_result
    take_result-IsHeld n room taken w h = record {
      saved = h.saved;
      whole =
          sym (append_assoc h.saved w.batch (n ∷ []))
          ∙ ap (λ (ns : List ℕ). ns ++ (n ∷ [])) h.whole;
      rows = h.rows;
      replayed = h.replayed;
      same = h.same;
    }

    pub record_speeds-IsHeld :
        (n : ℕ) (down up : S) (error : Option Text) (taken : List ℕ) (w : Writer S)
        → In (measured n down up error) all
        → IsHeld taken w
        → IsHeld taken (record_speeds sp c refuses n down up error w)
    unfolding record_speeds write_at
    record_speeds-IsHeld n down up error taken w i h = record {
      saved = h.saved;
      whole = h.whole;
      rows = h.rows;
      replayed = h.replayed;
      same = λ m. elim (Bool-cases (m == n)) [
        | inl e ↦
            let k = sym ((==_iff m n).0 e) in
            rw (write_at, e)
              (
                (h.same n).0 ∙ ap (λ (j : ℕ). (store j).ip) k,
                (h.same n).1 ∙ ap (λ (j : ℕ). (store j).latency) k,
                inr (subst (λ (j : ℕ). In (measured j down up error) all) k i),
              )
        | inr e ↦ rw (write_at, e) (h.same m)
      ];
    }
