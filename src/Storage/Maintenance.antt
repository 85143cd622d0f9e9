-- ===== src/Storage/Maintenance.antt =====
-- src/storage/maintenance.rs: the transactions of `activate` and `prune`, and the staging of
-- `restore`, on a store that is already open.
pub mod Prune
use bif.Base.{
  ℕ, ◌-◌, Bool, true, false, not, ◌&&◌, ◌||◌, List, [], ◌∷◌, Option, none, some, Result, ok, err,
  ◌>>=◌, ◌>>◌, map_err, if◌then◌else◌, ◌==◌, list_eq, nat_eq, option_eq, ltb, leb, any, length,
}
use bif.Base.Text.{Text, codes}
use bif.Base.Int.{ℤ, pos, negsuc, int_eq}
use bif.Storage.Codec.{SqliteError, constraint}
use bif.Storage.Engine.{execute}
use bif.Storage.Session.{read_store_state}
use bif.Storage.Migration.{MigrationError, migrations, migration_prefix, count}
use bif.Storage.Db.{
  Db, MetadataRow, JournalEntry, OperationEntry, ItemEntry, find_operation, find_item, select,
  has_length,
}
use bif.Storage.Journal.{
  JournalError, generation_mismatch, invalid_coverage, read_metadata, parse_generation,
}

-- the messages of `Invalid`
pub data Problem : Type 0 where
  integrity_failed foreign_keys_failed history_not_current identity_invalid : Problem
  schema_not_current header_unsupported journal_invalid : Problem

-- `Io` is made of paths only, which are not modelled
pub data MaintenanceError : Type 0 where
  sqlite : SqliteError → MaintenanceError
  migration_sqlite : SqliteError → MaintenanceError  -- `Migration(MigrationError::Sqlite(…))`
  migration : MigrationError → MaintenanceError
  journal : JournalError → MaintenanceError
  invalid : Problem → MaintenanceError

-- the requests to the engine that `validate` and `validate_journal` make
pub data Check : Type 0 where
  integrity foreign_keys history state identity reference schema headers : Check
  metadata dangling retained_rows allocator_row : Check

-- the requests of a maintenance transaction, which validates twice
pub data Statement : Type 0 where
  begin metadata delete_changes update_journal commit : Statement
  before after : Check → Statement

abbrev pub request : (Check → Option SqliteError) → Check → Result (Unit {0}) MaintenanceError
request fault check = map_err sqlite (execute fault check (ok tt))

abbrev pub perform :
    {A : Type 0}
    → (Statement → Option SqliteError)
    → Statement
    → Result A SqliteError
    → Result A MaintenanceError
perform fault statement outcome = map_err sqlite (execute fault statement outcome)

abbrev pub require : Bool → Problem → Result (Unit {0}) MaintenanceError
require true problem = ok tt
require false problem = err (invalid problem)

abbrev pub less : ℤ → ℤ → Bool
less (pos m) (pos n) = ltb m n
less (pos m) (negsuc n) = false
less (negsuc m) (pos n) = true
less (negsuc m) (negsuc n) = ltb n m

abbrev mismatched_item : JournalEntry → Option ItemEntry → Bool
mismatched_item j none = true
mismatched_item j (some i) =
    not (j.project_id == i.columns.project_id) || less i.columns.revision j.item_revision

abbrev pub mismatched : JournalEntry → Option OperationEntry → Bool
mismatched j none = true
mismatched j (some o) = not (j.item_id == o.item_id) || not (j.item_revision == o.item_revision)

-- the WHERE of the first query of `validate_journal`, on one row and its left joins
unfoldable pub is_dangling : Db → JournalEntry → Bool
is_dangling db j =
    mismatched j (find_operation j.operation_id db) || mismatched_item j (find_item j.item_id db)

abbrev pub retained : Db → List JournalEntry
retained db =
    select
      (λ j. ltb db.metadata.retention_floor j.change_seq && leb j.change_seq db.metadata.high_water)
      db.journal

unfoldable pub validate_journal :
    (Check → Option SqliteError) → Db → Result (Unit {0}) MaintenanceError
validate_journal fault db = do
  _ ← request fault metadata
  row ← map_err journal (read_metadata db)
  _ ← request fault dangling
  let invalid_rows =
      any (λ (j : JournalEntry). ltb row.high_water j.change_seq || is_dangling db j) db.journal
  _ ← request fault retained_rows
  let count = length (retained db)
  _ ← request fault allocator_row
  require
      (not invalid_rows
        && (count == row.high_water - row.retention_floor && db.allocator == row.high_water))
      journal_invalid

-- the DELETE of `prune_opened`
abbrev pub delete_covered : ℕ → Db → Db
delete_covered through db = record db {
  journal = select (λ j. not (leb j.change_seq through)) db.journal;
}

-- an UPDATE of `journal_metadata`, with the CHECKs and the trigger `journal_metadata_monotonic` of
-- migrations/0004_change_journal.sql
abbrev pub is_generation : Result Text JournalError → Bool
is_generation (ok generation) = true
is_generation (err e) = false

unfoldable pub update_metadata : MetadataRow → Db → Result Db SqliteError
update_metadata next db =
    let old = db.metadata in
    if not (is_generation (parse_generation next.generation))
      || (ltb next.high_water next.retention_floor
          || (next.generation == old.generation
              && (ltb next.retention_floor old.retention_floor
                  || ltb next.high_water old.high_water)))
    then err constraint
    else ok (record db { metadata = next })

-- the DELETE and the UPDATE of `prune_opened`
abbrev pub pruned : ℕ → Db → Db
pruned through db = record db {
  journal = select (λ j. not (leb j.change_seq through)) db.journal;
  metadata = record db.metadata { retention_floor = through };
}

-- a row of `sqlite_schema`: type, name, table and text
abbrev pub SchemaObject : Type 0
SchemaObject = List (Option Text)

-- What SQLite tells of a database: the answers of its checks, its schema and its header. `reference`
-- is that of the database in memory which the embedded migrations make.
pub record Engine : Type 0 where
  pub integrity_check : Db → List Text
  pub foreign_key_check : Db → Bool
  pub nonempty : Db → Bool
  pub schema : Db → List SchemaObject
  pub pragma : Text → Db → ℤ
  pub reference_schema : List SchemaObject
  pub reference_pragma : Text → ℤ

module _ (engine : Engine) where
  -- the loop over the two pragmas
  abbrev pub has_header : Text → Db → Bool
  has_header name db = engine.pragma name db == engine.reference_pragma name

  -- `store_metadata` has at most one row, by its key and CHECK, and `read_store_state` reads it
  unfoldable pub validate : (Check → Option SqliteError) → Db → Result (Unit {0}) MaintenanceError
  validate fault db = do
    _ ← request fault integrity
    _ ← require (engine.integrity_check db == codes "ok" ∷ []) integrity_failed
    _ ← request fault foreign_keys
    _ ← require (not (engine.foreign_key_check db)) foreign_keys_failed
    _ ← map_err migration_sqlite (execute fault history (ok tt))
    applied ←
        map_err migration (migration_prefix (engine.nonempty db) db.identity.migrations migrations)
    _ ← require (applied == count migrations) history_not_current
    _ ← map_err sqlite (execute fault state (read_store_state db))
    _ ← request fault identity
    _ ← require (has_length db.identity.store_id) identity_invalid
    _ ← request fault reference
    _ ← request fault schema
    _ ← require (engine.schema db == engine.reference_schema) schema_not_current
    _ ← request fault headers
    _ ←
        require (has_header (codes "user_version") db && has_header (codes "application_id") db)
          header_unsupported
    validate_journal fault db

  module _ (fault : Statement → Option SqliteError) where
    -- what the maintenance of an open store begins with
    unfoldable pub bound_metadata : Text → Db → Result MetadataRow MaintenanceError
    bound_metadata expected_generation db = do
      _ ← perform fault begin (ok tt)
      _ ← validate (λ check. fault (before check)) db
      _ ← perform fault metadata (ok tt)
      row ← map_err journal (read_metadata db)
      if not (row.generation == expected_generation)
          then err (journal generation_mismatch)
          else ok row

    -- and what it ends with
    unfoldable pub validated_commit : Db → Result Db MaintenanceError
    validated_commit db = do
      _ ← validate (λ check. fault (after check)) db
      _ ← perform fault commit (ok tt)
      ok db

    -- `activate_opened`
    unfoldable pub activate_opened : Text → Db → Result Db MaintenanceError
    unfolding bound_metadata validated_commit
    activate_opened expected_generation db = do
      row ← bound_metadata expected_generation db
      next ←
          if not row.sync_enabled
          then perform fault update_journal
              (update_metadata (record db.metadata { sync_enabled = true }) db)
          else ok db
      validated_commit next

    -- `prune_opened`; a negative bound is below every floor
    unfoldable pub prune_opened : Text → ℤ → Db → Result Db MaintenanceError
    unfolding bound_metadata validated_commit
    prune_opened expected_generation (negsuc n) db = do
      row ← bound_metadata expected_generation db
      err (journal invalid_coverage)
    prune_opened expected_generation (pos through) db = do
      row ← bound_metadata expected_generation db
      if ltb through row.retention_floor || ltb row.high_water through
          then err (journal invalid_coverage)
          else do
            deleted ← perform fault delete_changes (ok (delete_covered through db))
            next ←
                perform fault update_journal
                  (update_metadata (record deleted.metadata { retention_floor = through }) deleted)
            validated_commit next

    -- what `restore` does to the staged copy, with the generation that was drawn; the second
    -- validation comes behind the commit
    unfoldable pub stage_restore : Text → Db → Result Db MaintenanceError
    stage_restore generation db = do
      _ ← validate (λ check. fault (before check)) db
      _ ← perform fault begin (ok tt)
      staged ← perform fault update_journal (
          update_metadata
            (record db.metadata {
              generation = generation;
              sync_enabled = false;
              bootstrap_required = true;
            })
            db)
      _ ← perform fault commit (ok tt)
      _ ← validate (λ check. fault (after check)) staged
      ok staged
