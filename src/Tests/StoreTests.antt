-- ===== src/Tests/StoreTests.antt =====
-- src/storage.rs and src/storage/: the theorems on journals, histories and columns.
use bif.Base.{
  ℕ_discrete, List-discrete, Option-discrete, any, some, ◌≡◌, ◌↔◌, refl, true, false, List, [], ◌∷◌,
  ◌++◌, ok, err, arith, map,
}
use bif.Base.Text.{codes}
use bif.Base.Int.{pos, as_i64, ℤ-discrete}
use bif.Samples.{item, item_id, call, db, generation}
use bif.Domain.Item.{blocked}
use bif.Domain.Item.Display.{display, to_decimal, padded, digits}
use bif.Storage.Codec.{item_columns, parse_status}
use bif.Storage.Db.{
  Db, MigrationRow, OperationEntry, ItemEntry, JournalEntry, find, find_operation, select,
}
use bif.Storage.Journal.{
  parse_generation, read_metadata, append_change, insert_change, max_seq, select_range,
  expired_coverage,
}
use bif.Storage.Journal.Coverage.{IsCovered, append_change-IsCovered, with_change, change_row}
use bif.Storage.Session.{read_store_state}
use bif.Storage.Maintenance.{
  Engine, SchemaObject, validate, validate_journal, mismatched, pruned, prune_opened, is_dangling,
}
use bif.Storage.Maintenance.Prune.{quiet, IsKept, prune_opened-succeeds, select_range-pruned}
use bif.Storage.Migration.{
  migrations, recorded, skip, migration_prefix, migrate_all, count, check_applied,
  supported_version,
}
use bif.Storage.Migration.History.{IsPrefix, migration_prefix_iff}
use bif.Storage.Mutate.{operation_entry}
use bif.Tests.StorageTests.{db-IsCovered}

abbrev operation : OperationEntry
operation = operation_entry call item

-- a store with an operation that is not journaled yet
abbrev open_store : Db
open_store = record db { operations = operation ∷ [] }

open_store-IsCovered : IsCovered open_store
open_store-IsCovered = record {
  generation = db-IsCovered.generation;
  floor = omega arith;
  fits = omega arith;
  allocator = refl;
  covers = refl;
}

abbrev stored : ItemEntry
stored = record { item_id = codes "DAVIS:bif:007"; columns = item_columns item }

abbrev journaled : Db
journaled = with_change open_store 1 (change_row 1 operation stored)

appends : append_change (codes "op-1") open_store ≡ ok (1, journaled)
unfolding append_change insert_change read_metadata max_seq parse_generation find item_columns
    ℕ_discrete List-discrete display to_decimal padded digits as_i64 ℤ-discrete
appends = refl

append_change-IsCovered_example : IsCovered journaled
append_change-IsCovered_example =
    append_change-IsCovered (codes "op-1") open_store journaled 1 open_store-IsCovered appends

journaled-IsCovered : IsCovered journaled
journaled-IsCovered =
    append_change-IsCovered (codes "op-1") open_store journaled 1 open_store-IsCovered appends

abbrev objects : List SchemaObject
objects =
    (some (codes "table")
      ∷ some (codes "items")
      ∷ some (codes "items")
      ∷ some (codes "CREATE TABLE items")
      ∷ [])
    ∷ []

-- an engine over the current schema, which looks for changes that have lost their operation
abbrev engine : Engine
engine = record {
  integrity_check = λ d. codes "ok" ∷ [];
  foreign_key_check =
      λ d. any (λ (j : JournalEntry). mismatched j (find_operation j.operation_id d)) d.journal;
  nonempty = λ d. true;
  schema = λ d. objects;
  pragma = λ name d. pos 0;
  reference_schema = objects;
  reference_pragma = λ name. pos 0;
}

journaled_valid : validate engine quiet journaled ≡ ok tt
unfolding validate validate_journal read_store_state read_metadata parse_generation migration_prefix
    check_applied supported_version is_dangling find item_columns ℕ_discrete List-discrete
    Option-discrete display to_decimal padded digits as_i64 ℤ-discrete select
journaled_valid = refl

journaled-IsKept : IsKept engine journaled (pruned 1 journaled)
unfolding find select ℕ_discrete
journaled-IsKept = record {
  integrity = refl;
  foreign_keys = refl;
  nonempty = refl;
  schema = refl;
  pragma = λ name. refl;
}

prune_opened-succeeds_example :
    prune_opened engine quiet generation (pos 1) journaled ≡ ok (pruned 1 journaled)
prune_opened-succeeds_example =
    prune_opened-succeeds engine 1 journaled journaled_valid journaled-IsCovered journaled-IsKept
      (omega arith) (omega arith)

select_range-pruned_example :
    select_range generation item_id.project (pos 0) (pos 1) 10 (pruned 1 journaled)
    ≡ err expired_coverage
select_range-pruned_example =
    select_range-pruned generation item_id.project 0 1 10 1 journaled refl (omega arith)
      (omega arith) (omega arith)

parses : parse_status (codes "blocked") [] ≡ ok blocked
unfolding parse_status ℕ_discrete List-discrete
parses = refl

-- a store that stopped after the second migration
abbrev old_history : List MigrationRow
old_history =
    record {
      version = 1;
      name = codes "initial";
      checksum = codes "6cce50f20fc62f82af5432d4e2be81c29a0f44a73ca5245353f98c6c6030f85e";
      applied_at = codes "t0";
    }
    ∷ record {
      version = 2;
      name = codes "immutable_events";
      checksum = codes "1ccf8188fa3ab0c9adbd889c1d80762c9a0d5b3a03189609b204ee05a9c05ced";
      applied_at = codes "t1";
    }
    ∷ []

migration_prefix_iff_example : (migration_prefix true old_history migrations ≡ ok 2) ↔ (
    IsPrefix old_history migrations
    × (2 ≡ count old_history)
    × (count old_history ≡ 0 → true ≡ false))
migration_prefix_iff_example = migration_prefix_iff true old_history 2

abbrev new_history : List MigrationRow
new_history = old_history ++ map (recorded (codes "t2")) (skip 2 migrations)

migrates : migrate_all (λ rows. ok tt) (codes "t2") true migrations old_history ≡ ok new_history
unfolding migrate_all migration_prefix check_applied supported_version ℕ_discrete List-discrete
migrates = refl
