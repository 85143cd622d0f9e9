-- ===== src/Storage/Migration.antt =====
-- src/storage.rs: the embedded migrations, the check of the applied history and its bookkeeping.
-- What a migration's SQL does to the schema is not modelled.
pub mod History
use bif.Base.{
  ℕ, zero, suc, Bool, true, false, not, ◌&&◌, ◌||◌, List, [], ◌∷◌, ◌++◌, map, Option, none, some,
  Result, ok, err, ◌>>=◌, ◌>>◌, if◌then◌else◌, ◌==◌, list_eq, nat_eq, ltb,
}
use bif.Base.Text.{Text, codes}
use bif.Storage.Db.{MigrationRow}

pub record Migration : Type 0 where
  pub version : ℕ
  pub name : Text
  pub checksum : Text

abbrev pub migrations : List Migration
migrations =
    record {
      version = 1;
      name = codes "initial";
      checksum = codes "6cce50f20fc62f82af5432d4e2be81c29a0f44a73ca5245353f98c6c6030f85e";
    }
    ∷ record {
      version = 2;
      name = codes "immutable_events";
      checksum = codes "1ccf8188fa3ab0c9adbd889c1d80762c9a0d5b3a03189609b204ee05a9c05ced";
    }
    ∷ record {
      version = 3;
      name = codes "projection_read_indexes";
      checksum = codes "18e0648e7f4beed109743b2de3a0dfb6bd733ca1fbce593b8a8da0eb9032d3d5";
    }
    ∷ record {
      version = 4;
      name = codes "change_journal";
      checksum = codes "4c8b26c35e9fbdadbd71ca8176f31e5df0c464860d31689435e23bfc334b73b2";
    }
    ∷ []

pub data MigrationError : Type 0 where
  newer_schema : ℕ → ℕ → MigrationError  -- found, supported
  invalid_history : MigrationError
  checksum_mismatch : ℕ → Text → Text → MigrationError  -- version, expected, found

-- `migrations.last().map_or(0, |migration| migration.version)`
unfoldable pub supported_version : List Migration → ℕ
supported_version [] = 0
supported_version (m ∷ []) = m.version
supported_version (m ∷ n ∷ ms) = supported_version (n ∷ ms)

-- The loop of `migration_prefix` over the applied rows; `expected` runs along.
unfoldable pub check_applied :
    ℕ → List MigrationRow → List Migration → Result (Unit {0}) MigrationError
check_applied supported [] expected = ok tt
check_applied supported (row ∷ rows) [] =
    if ltb supported row.version
    then err (newer_schema row.version supported)
    else err invalid_history
check_applied supported (row ∷ rows) (m ∷ ms) =
    let rest = check_applied supported rows ms in
    if ltb supported row.version
    then err (newer_schema row.version supported)
    else if not (row.version == m.version) || not (row.name == m.name)
    then err invalid_history
    else if not (row.checksum == m.checksum)
    then err (checksum_mismatch row.version m.checksum row.checksum)
    else rest

abbrev pub count {ℓ} : {A : Type ℓ} → List A → ℕ
count [] = 0
count (x ∷ xs) = suc (count xs)

abbrev is_nil : List MigrationRow → Bool
is_nil [] = true
is_nil (x ∷ xs) = false

-- `ORDER BY version LIMIT n`: the rows are kept in the order of their key
abbrev pub first_rows : ℕ → List MigrationRow → List MigrationRow
first_rows zero rows = []
first_rows (suc n) [] = []
first_rows (suc n) (row ∷ rows) = row ∷ first_rows n rows

-- `nonempty` says that the database has an object in its schema, of any type, beside the history and
-- what SQLite makes itself
unfoldable pub migration_prefix :
    Bool → List MigrationRow → List Migration → Result ℕ MigrationError
unfolding check_applied
migration_prefix nonempty rows ms =
    let applied = first_rows (suc (count ms)) rows in
    if is_nil applied && nonempty
    then err invalid_history
    else do _ ← check_applied (supported_version ms) applied ms; ok (count applied)

abbrev pub skip {ℓ} : {A : Type ℓ} → ℕ → List A → List A
skip zero xs = xs
skip (suc n) [] = []
skip (suc n) (x ∷ xs) = skip n xs

-- the row that is recorded for a migration, at a time
abbrev pub recorded : Text → Migration → MigrationRow
recorded now m = record {
  version = m.version;
  name = m.name;
  checksum = m.checksum;
  applied_at = now;
}

-- `migrate_all`, on the rows of `schema_migrations`, with what `validate` finds at the end. An error
-- leaves the rows as they were.
unfoldable pub migrate_all :
    (List MigrationRow → Result (Unit {0}) MigrationError)
    → Text
    → Bool
    → List Migration
    → List MigrationRow
    → Result (List MigrationRow) MigrationError
migrate_all validate now nonempty ms rows = do
  applied ← migration_prefix nonempty rows ms
  let after = rows ++ map (recorded now) (skip applied ms)
  validate after
  ok after
