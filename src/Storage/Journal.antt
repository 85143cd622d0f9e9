-- ===== src/Storage/Journal.antt =====
-- src/storage/journal.rs, with the triggers of migrations/0004_change_journal.sql.
pub mod Coverage
use bif.Base.{
  ℕ, zero, suc, ◌+◌, ◌-◌, ◌^◌, Bool, true, false, not, ◌&&◌, ◌||◌, List, [], ◌∷◌, ◌++◌, Option,
  none, some, Result, ok, err, ◌>>=◌, ◌>>◌, map_err, if◌then◌else◌, ◌==◌, list_eq, nat_eq, ltb, leb,
  any, all, length,
}
use bif.Base.Text.{Text, is_digit}
use bif.Base.Int.{ℤ, pos, negsuc, is_positive, int_eq}
use bif.Domain.Identifier.{ProjectId}
use bif.Storage.Codec.{SqliteError, constraint, full, query_returned_no_rows}
use bif.Storage.Db.{
  Db, MetadataRow, JournalEntry, OperationEntry, ItemEntry, find_operation, find_item, select,
  exists,
}

pub data JournalError : Type 0 where
  sqlite : SqliteError → JournalError
  invalid_metadata store_mismatch generation_mismatch sync_disabled : JournalError
  invalid_coverage expired_coverage sequence_exhausted : JournalError

-- `Generation::parse`: 32 lowercase hexadecimal digits
unfoldable pub parse_generation : Text → Result Text JournalError
parse_generation value =
    if not (length value == 32) || not (all (λ c. is_digit c || (leb b'a' c && leb c b'f')) value)
    then err invalid_metadata
    else ok value

-- `read_metadata`; the row is the only one
unfoldable pub read_metadata : Db → Result MetadataRow JournalError
read_metadata db = do
  generation ← parse_generation db.metadata.generation
  if ltb db.metadata.high_water db.metadata.retention_floor
      then err invalid_metadata
      else ok db.metadata

abbrev pub max_i64 : ℕ
max_i64 = 2 ^ 63 - 1

-- the largest key in use
unfoldable pub max_seq : List JournalEntry → ℕ
max_seq [] = 0
max_seq (e ∷ es) = if ltb (max_seq es) e.change_seq then e.change_seq else max_seq es

-- The key that AUTOINCREMENT gives: above every key in use and every one remembered.
abbrev pub next_key : Db → ℕ
next_key db =
    suc (if ltb db.allocator (max_seq db.journal) then max_seq db.journal else db.allocator)

-- The INSERT with the CHECK and the UNIQUE of the table, its exhausted allocator, and the trigger
-- `change_journal_append`, whose second test holds of what the SELECT has joined.
unfoldable pub insert_change : OperationEntry → ItemEntry → Db → Result (ℕ × Db) JournalError
insert_change o i db =
    let key = next_key db in
    if ltb max_i64 key
    then err (sqlite full)
    else if any (λ (e : JournalEntry). e.operation_id == o.operation_id) db.journal
        || (not (is_positive o.item_revision) || not (ltb db.metadata.high_water key))
    then err (sqlite constraint)
    else ok (
      key,
      record db {
        metadata = record db.metadata { high_water = key };
        journal =
            db.journal
            ++ record {
              change_seq = key;
              operation_id = o.operation_id;
              item_id = o.item_id;
              project_id = i.columns.project_id;
              item_revision = o.item_revision;
            }
              ∷ [];
        allocator = key;
      },
    )

-- `operations o JOIN items i ON i.item_id = o.item_id WHERE o.operation_id = …`
abbrev join_item : Db → Option OperationEntry → Result (OperationEntry × ItemEntry) JournalError
join_item db none = err (sqlite query_returned_no_rows)
join_item db (some o) = elim (find_item o.item_id db) [
  | none ↦ err (sqlite query_returned_no_rows)
  | some i ↦ ok (o, i)
]

unfoldable pub append_change : Text → Db → Result (ℕ × Db) JournalError
unfolding read_metadata
append_change operation_id db = do
  metadata ← read_metadata db
  if metadata.high_water == max_i64
      then err sequence_exhausted
      else do (o, i) ← join_item db (find_operation operation_id db); insert_change o i db

-- `JournalSnapshot::require_sync`, in a snapshot that holds `db`
unfoldable pub require_sync : Option (Text × Text) → Db → Result (Unit {0}) JournalError
require_sync none db = if not db.metadata.sync_enabled then err sync_disabled else ok tt
require_sync (some (store_id, generation)) db =
    if not (store_id == db.identity.store_id)
    then err store_mismatch
    else if not (generation == db.metadata.generation)
    then err generation_mismatch
    else if not db.metadata.sync_enabled
    then err sync_disabled
    else ok tt

-- the rows of a project in (covered_through, high_water], at most `limit`
unfoldable pub take_rows : ℕ → List JournalEntry → List JournalEntry
take_rows zero es = []
take_rows (suc n) [] = []
take_rows (suc n) (e ∷ es) = e ∷ take_rows n es

abbrev pub in_range : ProjectId → ℕ → ℕ → JournalEntry → Bool
in_range project low high e =
    (e.project_id == project.as_str) && (ltb low e.change_seq && leb e.change_seq high)

-- `JournalSnapshot::select_range`. The table is kept in the order of its key.
unfoldable pub select_range :
    Text → ProjectId → ℤ → ℤ → ℕ → Db → Result (List JournalEntry) JournalError
select_range generation project (pos covered_through) (pos high_water) limit db =
    if not (generation == db.metadata.generation)
    then err generation_mismatch
    else if ltb high_water covered_through || ltb db.metadata.high_water high_water
    then err invalid_coverage
    else if ltb covered_through db.metadata.retention_floor
    then err expired_coverage
    else ok (take_rows limit (select (in_range project covered_through high_water) db.journal))
select_range generation project _ _ limit db =
    if not (generation == db.metadata.generation)
    then err generation_mismatch
    else err invalid_coverage
