-- ===== src/Storage/Session.antt =====
-- src/storage.rs: the identity of a store that a handle pins, and the check of it before a write.
use bif.Base.{
  ℕ, suc, Bool, true, false, not, ◌&&◌, ◌||◌, List, [], ◌∷◌, Option, none, some, Result, ok, err,
  ◌>>=◌, if◌then◌else◌, ◌==◌, list_eq, nat_eq,
}
use bif.Base.Text.{Text}
use bif.Storage.Codec.{
  SqliteError, database_busy, database_locked, query_returned_no_rows, invalid_query,
}
use bif.Storage.Db.{Db, MigrationRow, has_length}
use bif.Storage.Migration.{Migration, migrations, count, first_rows}
use bif.Storage.Journal.{JournalError, parse_generation}

pub record ReadStoreState : Type 0 where
  pub store_id : Text
  pub generation : Text
  pub schema_version : ℕ
  pub migrations : List MigrationRow

unfoldable pub is_busy : SqliteError → Bool
is_busy database_busy = true
is_busy database_locked = true
is_busy _ = false

-- the WHERE of `read_store_identity`, which the only row may miss
abbrev pub read_store_identity : Db → Result Text SqliteError
read_store_identity db =
    if has_length db.identity.store_id then ok db.identity.store_id else err query_returned_no_rows

abbrev pub differs : MigrationRow → Migration → Bool
differs row m =
    not (row.version == m.version) || (not (row.name == m.name) || not (row.checksum == m.checksum))

-- `zip(…).any(…)`
abbrev pub any_differs : List MigrationRow → List Migration → Bool
any_differs (row ∷ rows) (m ∷ ms) = differs row m || any_differs rows ms
any_differs _ _ = false

abbrev pub as_invalid : Result Text JournalError → Result Text SqliteError
as_invalid (ok generation) = ok generation
as_invalid (err e) = err invalid_query

unfoldable pub read_store_state : Db → Result ReadStoreState SqliteError
read_store_state db = do
  store_id ← read_store_identity db
  generation ← as_invalid (parse_generation db.metadata.generation)
  let rows = first_rows (suc (count migrations)) db.identity.migrations
  if not (count rows == count migrations) || any_differs rows migrations
      then err invalid_query
      else ok (record {
        store_id = store_id;
        generation = generation;
        schema_version = db.identity.schema_version;
        migrations = rows;
      })

abbrev pub same_row : MigrationRow → MigrationRow → Bool
same_row a b =
    a.version == b.version
    && (a.name == b.name && (a.checksum == b.checksum && a.applied_at == b.applied_at))

abbrev pub same_rows : List MigrationRow → List MigrationRow → Bool
same_rows [] [] = true
same_rows (a ∷ xs) (b ∷ ys) = same_row a b && same_rows xs ys
same_rows _ _ = false

-- the derived `==` of `ReadStoreState`
unfoldable pub same_state : ReadStoreState → ReadStoreState → Bool
same_state a b =
    a.store_id == b.store_id
    && (a.generation == b.generation
        && (a.schema_version == b.schema_version && same_rows a.migrations b.migrations))

-- the arms of the `match`
unfoldable pub judge_state :
    ReadStoreState → Result ReadStoreState SqliteError → Result Bool SqliteError
judge_state pinned (ok state) = ok (same_state state pinned)
judge_state pinned (err e) = if is_busy e then err e else ok false

-- `check_write_state`; the first argument is the fault of the engine in reading, if there is one
unfoldable pub check_write_state :
    Option SqliteError → ReadStoreState → Db → Result Bool SqliteError
check_write_state none pinned db = judge_state pinned (read_store_state db)
check_write_state (some e) pinned db = judge_state pinned (err e)
