-- ===== src/Storage/Mutate.antt =====
-- src/storage.rs: `MutationStore::mutate`, one transaction on the store.
pub mod Commit
pub mod Answers
pub mod Stored
pub mod Retry
pub mod Conflict
use bif.Base.{
  ℕ, zero, suc, Bool, true, false, not, ◌&&◌, ◌||◌, List, [], ◌∷◌, ◌++◌, map, Option, none, some,
  Result, ok, err, ◌>>=◌, ◌>>◌, map_err, if◌then◌else◌, ◌==◌, list_eq, nat_eq, length,
}
use bif.Base.Text.{Text, codes}
use bif.Base.Int.{as_i64}
use mathlib.Core.Option
use bif.Domain.Identifier.{AssigneeId}
use bif.Domain.Item.{Item, Timestamp, set_updated_at}
use bif.Domain.Item.Display.{display}
use bif.Domain.Mutation.{DomainEvent, apply_mutation}
use bif.Application.Authorize.{Actor, Execution}
use bif.Application.Request.{
  MutationIdentity, MutationRequest, MutationResult, MutationStoreError, not_found,
  restart_required, version_conflict, invalid, busy, storage,
}
use bif.Application.Request as R
use bif.Storage.Codec.{
  SqliteError, invalid_parameter_count, conversion_failure, ItemStorageError, ItemColumns, ItemRow,
  invalid_persisted_data, status_text, priority_text, decode_item,
}
use bif.Storage.Codec as C
use bif.Storage.Db.{
  Db, ItemEntry, ProvenanceEntry, CriterionEntry, ReceiptEntry, OperationEntry, select, find_item,
  find_provenance, find_receipt, update_item, insert_operation, insert_event, insert_receipt,
}
use bif.Storage.Events.{EventContext, event_entry, mutation_reason, mutation_type}
use bif.Storage.Session.{ReadStoreState, is_busy, check_write_state}
use bif.Storage.Journal.{JournalError, append_change}
use bif.Storage.Journal as J
use bif.Storage.Engine.{execute}

-- the requests to the engine, each of which it may refuse for a reason of its own
pub data Statement : Type 0 where
  begin read_state read_receipt read_item read_criteria : Statement
  write_item write_operation write_receipt write_change commit_changes : Statement
  write_event : ℕ → Statement

abbrev pub Outcome : Type 0 → Type 0
Outcome A = Result A (MutationStoreError SqliteError)

-- `impl From<rusqlite::Error> for MutationStoreError`
unfoldable pub from_sqlite : SqliteError → MutationStoreError SqliteError
from_sqlite e = if is_busy e then busy e else storage e

unfoldable pub mutation_load_error : ItemStorageError → MutationStoreError SqliteError
unfolding from_sqlite
mutation_load_error (C.sqlite e) = from_sqlite e
mutation_load_error (invalid_persisted_data item_id detail) = storage conversion_failure

-- the conversion around `journal::append_change`
abbrev pub from_journal : JournalError → MutationStoreError SqliteError
from_journal (J.sqlite e) = from_sqlite e
from_journal _ = storage conversion_failure

-- the criteria of an item; the table is kept in the order of its key
abbrev pub criteria_of : Text → Db → List Text
criteria_of item_id db =
    map (λ (c : CriterionEntry). c.criterion)
      (select (λ (c : CriterionEntry). c.item_id == item_id) db.criteria)

abbrev pub joined : Option ItemEntry → Option ProvenanceEntry → Option ItemRow
joined (some i) (some p) = some (record { columns = i.columns; provenance = p.columns })
joined _ _ = none

unfoldable pub item_update : Item → Timestamp → ItemColumns → ItemColumns
item_update item occurred_at c = record c {
  status = status_text item.status;
  priority = Option.map priority_text item.priority;
  assignee = Option.map (λ (a : AssigneeId). a.as_str) item.assignee;
  status_reason = item.status_reason;
  revision = as_i64 item.revision;
  updated_at = occurred_at;
}

-- the end of a transaction: what it has committed, if it has; an error or a return before `commit`
-- drops it
abbrev pub finish_transaction :
    Db → Outcome (MutationResult × Option Db) → Db × Outcome MutationResult
finish_transaction db (ok (result, some next)) = (next, ok result)
finish_transaction db (ok (result, none)) = (db, ok result)
finish_transaction db (err e) = (db, err e)

-- what a call brings beside the store
pub record Call : Type 0 where
  pub request : MutationRequest
  pub payload_hash : Text
  pub actor : Actor
  pub execution : Execution
  pub occurred_at : Timestamp
  pub identity : MutationIdentity

abbrev pub found : Option Item → Outcome Item
found none = err not_found
found (some item) = ok item

abbrev pub replayed_item : Item → MutationResult × Option Db
replayed_item item = (record { item = item; replayed = true }, none)

abbrev pub operation_entry : Call → Item → OperationEntry
operation_entry call item = record {
  operation_id = call.identity.operation_id;
  item_id = display item.id;
  operation_type = codes "triage";
  expected_revision = some (as_i64 call.request.expected_revision);
  item_revision = as_i64 item.revision;
  occurred_at = call.occurred_at;
}

-- `response_json`, which no code reads, is left out
abbrev pub receipt_entry : Call → Item → List DomainEvent → ReceiptEntry
receipt_entry call item events = record {
  mutation_key = call.request.idempotency_key;
  mutation_type = mutation_type events;
  payload_hash = call.payload_hash;
  operation_id = call.identity.operation_id;
  item_id = display item.id;
  created_at = call.occurred_at;
}

abbrev pub context : Call → Item → EventContext
context call item = record {
  operation_id = call.identity.operation_id;
  item_id = display item.id;
  actor = call.actor;
  execution = call.execution;
  reason = mutation_reason call.request.mutation;
  occurred_at = call.occurred_at;
}

module _ (fault : Statement → Option SqliteError) where
  unfoldable pub load_item : Text → Db → Result (Option Item) ItemStorageError
  load_item item_id db = do
    row ←
        map_err C.sqlite (
          execute fault read_item (ok (joined (find_item item_id db) (find_provenance item_id db))))
    elim row [
      | none ↦ ok none
      | some r ↦ do
        criteria ← map_err C.sqlite (execute fault read_criteria (ok (criteria_of item_id db)))
        item ← decode_item item_id r criteria
        ok (some item)
    ]

  -- the loop over the events and their ids
  unfoldable pub insert_events :
      EventContext → ℕ → List DomainEvent → List Text → Db → Result Db SqliteError
  insert_events c index (event ∷ events) (event_id ∷ ids) db = do
    next ← execute fault (write_event index) (insert_event (event_entry c event_id index event) db)
    insert_events c (suc index) events ids next
  insert_events c index _ _ db = ok db

  -- a receipt was found
  unfoldable pub answer_receipt : Text → ReceiptEntry → Db → Outcome (MutationResult × Option Db)
  unfolding load_item
  answer_receipt payload_hash receipt db =
      if not (receipt.payload_hash == payload_hash) then err R.idempotency_conflict else do
        stored ← map_err mutation_load_error (load_item receipt.item_id db)
        item ← found stored
        ok (replayed_item item)

  -- from `item.set_updated_at(…)` to `commit`
  unfoldable pub write_changes :
      Call → Item → List DomainEvent → Db → Outcome (MutationResult × Option Db)
  unfolding insert_events
  write_changes call planned events db = do
    let item = set_updated_at call.occurred_at planned
    d1 ← map_err from_sqlite (
        execute fault write_item
          (update_item (display item.id) (item_update item call.occurred_at) db))
    d2 ←
        map_err from_sqlite
          (execute fault write_operation (insert_operation (operation_entry call item) d1))
    d3 ← map_err from_sqlite (insert_events (context call item) 0 events call.identity.event_ids d2)
    d4 ←
        map_err from_sqlite
          (execute fault write_receipt (insert_receipt (receipt_entry call item events) d3))
    _ ← map_err from_sqlite (execute fault write_change (ok tt))
    (_, d5) ← map_err from_journal (append_change call.identity.operation_id d4)
    d6 ← map_err from_sqlite (execute fault commit_changes (ok d5))
    ok (record { item = item; replayed = false }, some d6)

  -- what `apply_mutation` has made of the item
  unfoldable pub record_changes :
      Call → Item → List DomainEvent → Db → Outcome (MutationResult × Option Db)
  unfolding write_changes
  record_changes call item [] db = ok (record { item = item; replayed = false }, none)
  record_changes call item (event ∷ events) db =
      let count = length (event ∷ events) in
      if not (length call.identity.event_ids == count)
      then err (storage (invalid_parameter_count (length call.identity.event_ids) count))
      else write_changes call item (event ∷ events) db

  -- no receipt was found
  unfoldable pub apply_request : Call → Db → Outcome (MutationResult × Option Db)
  unfolding load_item record_changes
  apply_request call db = do
    stored ← map_err mutation_load_error (load_item (display call.request.item_id) db)
    item ← found stored
    if not (item.revision == call.request.expected_revision) then err version_conflict else do
      let (planned, outcome) = apply_mutation call.request.mutation item
      events ← map_err invalid outcome
      record_changes call planned events db

  unfoldable pub body : ReadStoreState → Call → Db → Outcome (MutationResult × Option Db)
  unfolding answer_receipt apply_request
  body pinned call db = do
    _ ← map_err from_sqlite (execute fault begin (ok tt))
    current ← map_err from_sqlite (check_write_state (fault read_state) pinned db)
    if not current then err restart_required else do
      receipt ←
          map_err from_sqlite
            (execute fault read_receipt (ok (find_receipt call.request.idempotency_key db)))
      elim receipt [ none ↦ apply_request call db | some r ↦ answer_receipt call.payload_hash r db ]

  unfoldable pub mutate : ReadStoreState → Call → Db → Db × Outcome MutationResult
  unfolding body
  mutate pinned call db = finish_transaction db (body pinned call db)
