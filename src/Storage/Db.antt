-- ===== src/Storage/Db.antt =====
-- The tables of migrations/ as lists of rows, and the statements on them that src/storage.rs and
-- src/storage/journal.rs execute. A statement that breaks a constraint is the error `constraint`.
pub mod Inserts
pub mod Captures
use bif.Base.{
  ℕ, Bool, true, false, not, ◌&&◌, ◌||◌, List, [], ◌∷◌, ◌++◌, Option, none, some, Result, ok, err,
  if◌then◌else◌, ◌==◌, list_eq, nat_eq, option_eq, any, all,
}
use bif.Base.Text.{Text, codes, is_upper}
use bif.Base.Int.{ℤ, int_eq, is_positive}
use bif.Storage.Codec.{SqliteError, constraint, ItemColumns, ProvenanceColumns}

pub record ItemEntry : Type 0 where
  pub item_id : Text
  pub columns : ItemColumns

pub record CriterionEntry : Type 0 where
  pub item_id : Text
  pub criterion_index : ℕ
  pub criterion : Text

pub record ProvenanceEntry : Type 0 where
  pub item_id : Text
  pub columns : ProvenanceColumns

pub record CounterEntry : Type 0 where
  pub requester : Text
  pub project_id : Text
  pub next_sequence : ℕ

pub record OperationEntry : Type 0 where
  pub operation_id : Text
  pub item_id : Text
  pub operation_type : Text
  pub expected_revision : Option ℤ
  pub item_revision : ℤ
  pub occurred_at : Text

pub record EventEntry : Type 0 where
  pub event_id : Text
  pub operation_id : Text
  pub item_id : Text
  pub item_revision : ℤ
  pub event_index : ℕ
  pub event_type : Text
  pub before_value : Option Text
  pub after_value : Option Text
  pub actor_kind : Text
  pub actor_id : Text
  pub actor_surface : Text
  pub actor_host : Text
  pub execution_kind : Text
  pub execution_agent_id : Option Text
  pub execution_surface : Text
  pub execution_host : Text
  pub reason : Option Text
  pub note : Option Text
  pub occurred_at : Text

pub record ReceiptEntry : Type 0 where
  pub mutation_key : Text
  pub mutation_type : Text
  pub payload_hash : Text
  pub operation_id : Text
  pub item_id : Text
  pub created_at : Text

pub record JournalEntry : Type 0 where
  pub change_seq : ℕ
  pub operation_id : Text
  pub item_id : Text
  pub project_id : Text
  pub item_revision : ℤ

-- the one row of `journal_metadata`; its CHECKs keep the numbers natural and the flags Boolean
pub record MetadataRow : Type 0 where
  pub generation : Text
  pub retention_floor : ℕ
  pub high_water : ℕ
  pub sync_enabled : Bool
  pub bootstrap_required : Bool

-- a row of `schema_migrations`
pub record MigrationRow : Type 0 where
  pub version : ℕ
  pub name : Text
  pub checksum : Text
  pub applied_at : Text

-- `store_metadata`, `PRAGMA schema_version` and `schema_migrations`
pub record StoreIdentity : Type 0 where
  pub store_id : Text
  pub schema_version : ℕ
  pub migrations : List MigrationRow

pub record Db : Type 0 where
  pub identity : StoreIdentity
  pub metadata : MetadataRow
  pub projects : List Text
  pub counters : List CounterEntry
  pub items : List ItemEntry
  pub criteria : List CriterionEntry
  pub provenance : List ProvenanceEntry
  pub operations : List OperationEntry
  pub events : List EventEntry
  pub receipts : List ReceiptEntry
  pub journal : List JournalEntry
  pub allocator : ℕ  -- the row of `sqlite_sequence` for `change_journal`

-- the first row that passes a test, as a query by a key finds it
module _ {ℓ} {A : Type ℓ} where
  unfoldable pub find : (A → Bool) → List A → Option A
  find p [] = none
  find p (x ∷ xs) = if p x then some x else find p xs

  unfoldable pub select : (A → Bool) → List A → List A
  select p [] = []
  select p (x ∷ xs) = if p x then x ∷ select p xs else select p xs

  -- `UPDATE … WHERE`
  unfoldable pub update : (A → Bool) → (A → A) → List A → List A
  update p f [] = []
  update p f (x ∷ xs) = (if p x then f x else x) ∷ update p f xs

-- `length(text) > 0`: SQLite counts the characters in front of the first NUL
abbrev pub has_length : Text → Bool
has_length [] = false
has_length (c ∷ s) = not (c == 0)

abbrev pub require : Bool → Db → Result Db SqliteError
require true db = ok db
require false db = err constraint

abbrev pub is_item : Text → ItemEntry → Bool
is_item id e = e.item_id == id

abbrev pub find_item : Text → Db → Option ItemEntry
find_item id db = find (is_item id) db.items

abbrev pub find_provenance : Text → Db → Option ProvenanceEntry
find_provenance id db = find (λ e. e.item_id == id) db.provenance

abbrev pub find_receipt : Text → Db → Option ReceiptEntry
find_receipt key db = find (λ e. e.mutation_key == key) db.receipts

abbrev pub find_operation : Text → Db → Option OperationEntry
find_operation id db = find (λ e. e.operation_id == id) db.operations

abbrev pub exists {ℓ} : {A : Type ℓ} → Option A → Bool
exists none = false
exists (some a) = true

-- the CHECKs on the columns that the UPDATE of `mutate` writes
abbrev pub lowercase_or_null : Option Text → Bool
lowercase_or_null none = true
lowercase_or_null (some a) = has_length a && all (λ c. not (is_upper c)) a

unfoldable pub update_item : Text → (ItemColumns → ItemColumns) → Db → Result Db SqliteError
update_item id f db =
    let rows = update (is_item id) (λ e. record e { columns = f e.columns }) db.items in
    let checked = λ (e : ItemEntry).
      not (e.item_id == id)
      || (is_positive e.columns.revision
          && (lowercase_or_null e.columns.assignee && has_length e.columns.updated_at)) in
    require (all checked rows) (record db { items = rows })

-- the columns of an `events` row that admit few values
abbrev pub is_surface : Text → Bool
is_surface s = s == codes "thread" || (s == codes "cli" || s == codes "rpc")

abbrev pub is_host : Text → Bool
is_host s = s == codes "delta" || (s == codes "codex" || s == codes "local")

abbrev pub agent_matches : Text → Option Text → Bool
agent_matches kind none = kind == codes "direct"
agent_matches kind (some a) = kind == codes "agent" && has_length a

unfoldable pub insert_event : EventEntry → Db → Result Db SqliteError
insert_event e db =
    require
      (has_length e.event_id
        && (not (
              any
                (λ (x : EventEntry).
                  x.event_id == e.event_id
                  || ((x.operation_id == e.operation_id && x.event_index == e.event_index)
                      || (x.item_id == e.item_id
                          && (x.item_revision == e.item_revision
                              && x.event_index == e.event_index))))
                db.events)
            && (any
                  (λ (o : OperationEntry).
                    o.operation_id == e.operation_id && o.item_revision == e.item_revision)
                  db.operations
                && (exists (find_item e.item_id db)
                    && (is_positive e.item_revision
                        && (has_length e.actor_id
                            && ((is_surface e.actor_surface && is_host e.actor_host)
                                && ((is_surface e.execution_surface && is_host e.execution_host)
                                    && (agent_matches e.execution_kind e.execution_agent_id
                                        && has_length e.occurred_at)))))))))
      (record db { events = db.events ++ e ∷ [] })

unfoldable pub insert_receipt : ReceiptEntry → Db → Result Db SqliteError
insert_receipt r db =
    require
      (has_length r.mutation_key
        && (not (
              any
                (λ (x : ReceiptEntry).
                  x.mutation_key == r.mutation_key || x.operation_id == r.operation_id)
                db.receipts)
            && (has_length r.payload_hash
                && (exists (find_operation r.operation_id db)
                    && (exists (find_item r.item_id db) && has_length r.created_at)))))
      (record db { receipts = db.receipts ++ r ∷ [] })

unfoldable pub insert_operation : OperationEntry → Db → Result Db SqliteError
insert_operation o db =
    require
      (has_length o.operation_id
        && (not (exists (find_operation o.operation_id db))
            && (exists (find_item o.item_id db)
                && (not (
                      any
                        (λ (x : OperationEntry).
                          x.item_id == o.item_id && x.item_revision == o.item_revision)
                        db.operations)
                    && (is_positive o.item_revision && has_length o.occurred_at)))))
      (record db { operations = db.operations ++ o ∷ [] })
