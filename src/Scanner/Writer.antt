-- ===== src/Scanner/Writer.antt =====
-- The goroutine of `Run` that takes the results of the workers, forwards them and saves them in
-- batches. A result is a pointer, a number here, into the store that the workers write to as well.
pub mod Rows
pub mod Held
pub mod Kept
use mathlib.Core.Path.{subst}
use xray_knife.Prelude.{
  ℕ, suc, ◌<◌, ◌≡◌, refl, sym, ap, ◌∙◌, ◌⊎◌, inl, inr, Bool, true, false, ◌||◌, not, List, [], ◌∷◌,
  ◌++◌, map, Option, if◌then◌else◌, leb, ◌==◌, length, arith, append_assoc, append-nil, Bool-cases,
}
use xray_knife.Text.{Text}
use xray_knife.Dict.{insert}
use xray_knife.Core.{ok, err}
use xray_knife.Scanner.{
  DbRow, Speeds, ScanResult, ScannerConfig, Table, prepare_for_marshal, to_row, upsert_batch,
}

abbrev pub save_batch_size : ℕ
save_batch_size = 50

pub record Writer (S : Type 0) : Type 0 where
  pub store : ℕ → ScanResult S
  pub batch : List ℕ
  pub run_results : List (Text × ℕ)
  pub forwarded : List ℕ
  pub table : Table S
  pub given : List (List (DbRow S))  -- the batches that the database was given, in order
  pub returned : Bool

-- `received n room` is a result from a worker, with `room` in the channel to the caller;
-- `measured` is the speed test's write through a pointer.
pub data WriterEvent (S : Type 0) : Type 0 where
  received : ℕ → Bool → WriterEvent S
  measured : ℕ → S → S → Option Text → WriterEvent S
  ticked cancelled closed : WriterEvent S

module _ {S : Type 0} where
  unfoldable pub write_at : ℕ → ScanResult S → (ℕ → ScanResult S) → ℕ → ScanResult S
  write_at n r store m = if m == n then r else store m

  unfoldable pub prepare_batch : List ℕ → (ℕ → ScanResult S) → ℕ → ScanResult S
  unfolding write_at
  prepare_batch [] store = store
  prepare_batch (n ∷ batch) store =
      prepare_batch batch (write_at n (prepare_for_marshal (store n)) store)

  abbrev pub new_writer : (ℕ → ScanResult S) → Table S → Writer S
  new_writer store table = record {
    store = store;
    batch = [];
    run_results = [];
    forwarded = [];
    table = table;
    given = [];
    returned = false;
  }

  abbrev pub stop_writer : Writer S → Writer S
  stop_writer w = record {
    store = w.store;
    batch = w.batch;
    run_results = w.run_results;
    forwarded = w.forwarded;
    table = w.table;
    given = w.given;
    returned = true;
  }

module _ {S : Type 0} (sp : Speeds S) (c : ScannerConfig) (refuses : ℕ → Option Text) where
  -- The closure `saveToDB`; `refuses n` is the error of the database on batch number `n`.
  unfoldable pub save_batch_to_db : Writer S → Writer S
  unfolding prepare_batch to_row upsert_batch
  save_batch_to_db w =
      let store = prepare_batch w.batch w.store in
      let rows = map (λ n. to_row sp (store n)) w.batch in
      if not c.save_to_db || length w.batch == 0 then w else record {
        store = store;
        batch = [];
        run_results = w.run_results;
        forwarded = w.forwarded;
        table = elim (upsert_batch (refuses (length w.given)) rows w.table) [
          | err e ↦ w.table
          | ok table ↦ table
        ];
        given = w.given ++ (rows ∷ []);
        returned = w.returned;
      }

  unfoldable pub take_result : ℕ → Bool → Writer S → Writer S
  take_result n room w = record {
    store = w.store;
    batch = w.batch ++ (n ∷ []);
    run_results = insert (w.store n).ip n w.run_results;
    forwarded = if room then w.forwarded ++ (n ∷ []) else w.forwarded;
    table = w.table;
    given = w.given;
    returned = w.returned;
  }

  unfoldable pub record_speeds : ℕ → S → S → Option Text → Writer S → Writer S
  unfolding write_at
  record_speeds n down up error w =
      let r = w.store n in
      record {
        store =
            write_at n
              (record {
                ip = r.ip;
                latency = r.latency;
                latency_ms = r.latency_ms;
                down_speed = down;
                up_speed = up;
                error = error;
                error_str = r.error_str;
              })
              w.store;
        batch = w.batch;
        run_results = w.run_results;
        forwarded = w.forwarded;
        table = w.table;
        given = w.given;
        returned = w.returned;
      }

  unfoldable pub writer_step : WriterEvent S → Writer S → Writer S
  unfolding save_batch_to_db take_result record_speeds
  writer_step (received n room) w =
      let taken = take_result n room w in
      if leb save_batch_size (length taken.batch) then save_batch_to_db taken else taken
  writer_step (measured n down up error) w = record_speeds n down up error w
  writer_step ticked w = save_batch_to_db w
  writer_step cancelled w = stop_writer (save_batch_to_db w)
  writer_step closed w = stop_writer (save_batch_to_db w)

  -- Once it has returned, the goroutine takes nothing more.
  unfoldable pub run_writer : List (WriterEvent S) → Writer S → Writer S
  unfolding writer_step
  run_writer [] w = w
  run_writer (e ∷ es) w = if w.returned then w else run_writer es (writer_step e w)
