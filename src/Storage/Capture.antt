-- ===== src/Storage/Capture.antt =====
-- src/storage.rs: `CaptureRepository::capture_inner`, one transaction on the store.
pub mod Commit
pub mod Answers
pub mod Numbering
pub mod Retry
use bif.Base.{
  ℕ, zero, suc, ◌+◌, ◌-◌, ◌^◌, Bool, true, false, not, List, [], ◌∷◌, Option, none, some, Result,
  ok, err, ◌>>=◌, ◌>>◌, map_err, Stopped, failed, panicked, if◌then◌else◌, ◌==◌, list_eq, nat_eq,
}
use bif.Base.Text.{Text, codes}
use bif.Base.Int.{ℤ, pos, negsuc, as_i64}
use bif.Domain.Identifier.{RequesterId, ProjectId}
use bif.Domain.Item.{Item, ItemId, Timestamp, new_item_id, new_capture, InvalidItemSequence}
use bif.Domain.Item.Display.{display}
use bif.Application.Authorize.{Actor, Execution}
use bif.Application.Request.{
  CaptureInput, CaptureRequest, CaptureResult, CaptureIdentity, CaptureStoreError, restart_required,
  busy, storage,
}
use bif.Application.Request as R
use bif.Storage.Codec.{SqliteError, query_returned_no_rows, item_columns, provenance_columns}
use bif.Storage.Db.{
  Db, ItemEntry, CriterionEntry, ProvenanceEntry, CounterEntry, OperationEntry, EventEntry,
  ReceiptEntry, find_item, find_receipt, insert_operation, insert_event, insert_receipt,
}
use bif.Storage.Db.Captures.{
  find_counter, insert_project, insert_counter, update_counter, insert_item, insert_criterion,
  insert_provenance,
}
use bif.Storage.Engine.{execute}
use bif.Storage.Events.{actor_kind, execution_columns}
use bif.Storage.Session.{ReadStoreState, is_busy, check_write_state}
use bif.Storage.Journal.{JournalError, append_change, max_i64}
use bif.Storage.Journal as J

pub data CaptureStorageError : Type 0 where
  sequence_exhausted : CaptureStorageError
  sqlite : SqliteError → CaptureStorageError
  journal : JournalError → CaptureStorageError

-- an error, or the panic of an `expect`
abbrev pub Stop : Type 0
Stop = Stopped (CaptureStoreError CaptureStorageError)

-- the requests to the engine
pub data Statement : Type 0 where
  begin read_state read_receipt read_captured write_project read_counter write_counter : Statement
  write_item write_provenance write_operation write_event write_receipt write_change
        commit_changes :
      Statement
  write_criterion : ℕ → Statement

abbrev pub Outcome : Type 0 → Type 0
Outcome A = Result A Stop

-- `impl From<rusqlite::Error> for CaptureStoreError`
unfoldable pub from_sqlite : SqliteError → Stop
from_sqlite e = failed (if is_busy e then busy (sqlite e) else storage (sqlite e))

-- `impl From<journal::JournalError> for CaptureStoreError`
unfoldable pub from_journal : JournalError → Stop
unfolding from_sqlite
from_journal (J.sqlite e) = from_sqlite e
from_journal e = failed (storage (journal e))

-- `sequence as u64`
abbrev pub as_u64 : ℤ → ℕ
as_u64 (pos n) = n
as_u64 (negsuc n) = 2 ^ 64 - 1 - n

-- `ItemId::new(…).expect(…)`
abbrev pub expected : Result ItemId InvalidItemSequence → Outcome ItemId
expected (ok id) = ok id
expected (err e) = err panicked

-- what a call brings beside the store
pub record Call : Type 0 where
  pub request : CaptureRequest
  pub payload_hash : Text
  pub actor : Actor
  pub execution : Execution
  pub occurred_at : Timestamp
  pub identity : CaptureIdentity

-- the item as it was captured
abbrev pub captured_item : CaptureInput → Timestamp → ItemId → Item
captured_item input at id = new_capture id input.content input.provenance at at

abbrev pub captured_columns : Option ItemEntry → Result (ℤ × Timestamp) SqliteError
captured_columns none = err query_returned_no_rows
captured_columns (some e) = ok (e.columns.sequence, e.columns.captured_at)

abbrev pub item_entry : Item → ItemEntry
item_entry item = record { item_id = display item.id; columns = item_columns item }

abbrev pub provenance_entry : Item → ProvenanceEntry
provenance_entry item = record {
  item_id = display item.id;
  columns = provenance_columns item.provenance;
}

abbrev pub operation_entry : Call → Item → OperationEntry
operation_entry call item = record {
  operation_id = call.identity.operation_id;
  item_id = display item.id;
  operation_type = codes "capture";
  expected_revision = none;
  item_revision = pos 1;
  occurred_at = item.captured_at;
}

unfoldable pub capture_event : Call → Item → EventEntry
capture_event call item =
    let (kind, agent_id, surface, host) = execution_columns call.execution in
    record {
      event_id = call.identity.event_id;
      operation_id = call.identity.operation_id;
      item_id = display item.id;
      item_revision = pos 1;
      event_index = 0;
      event_type = codes "captured";
      before_value = none;
      after_value = none;
      actor_kind = actor_kind call.actor.kind;
      actor_id = call.actor.id;
      actor_surface = call.actor.surface;
      actor_host = call.actor.host;
      execution_kind = kind;
      execution_agent_id = agent_id;
      execution_surface = surface;
      execution_host = host;
      reason = none;
      note = none;
      occurred_at = item.captured_at;
    }

-- `response_json`, which no code reads, is left out
abbrev pub receipt_entry : Call → Item → ReceiptEntry
receipt_entry call item = record {
  mutation_key = call.request.idempotency_key;
  mutation_type = codes "capture";
  payload_hash = call.payload_hash;
  operation_id = call.identity.operation_id;
  item_id = display item.id;
  created_at = item.captured_at;
}

-- the end of a transaction: an error, a panic or a return before `commit` drops it
abbrev pub finish_transaction :
    Db → Outcome (CaptureResult × Option Db) → Db × Outcome CaptureResult
finish_transaction db (ok (result, some next)) = (next, ok result)
finish_transaction db (ok (result, none)) = (db, ok result)
finish_transaction db (err stop) = (db, err stop)

module _ (fault : Statement → Option SqliteError) where
  -- a receipt was found
  unfoldable pub answer_receipt : Call → ReceiptEntry → Db → Outcome (CaptureResult × Option Db)
  answer_receipt call receipt db =
      if not (receipt.payload_hash == call.payload_hash)
      then err (failed R.idempotency_conflict)
      else do
        (sequence, captured_at) ←
            map_err from_sqlite
              (execute fault read_captured (captured_columns (find_item receipt.item_id db)))
        let input = call.request.input
        id ← expected (new_item_id input.requester input.project (as_u64 sequence))
        ok (record { item = captured_item input captured_at id; replayed = true }, none)

  -- the `match current`: the sequence, and the store with its counter moved on
  unfoldable pub allocate : Text → Text → Option CounterEntry → Db → Outcome (ℕ × Db)
  allocate requester project_id none db = do
    next ← map_err from_sqlite (
        execute fault write_counter (
          insert_counter
            (record { requester = requester; project_id = project_id; next_sequence = 2 }) db))
    ok (1, next)
  allocate requester project_id (some c) db =
      if c.next_sequence == max_i64 then err (failed (storage sequence_exhausted)) else do
        next ← map_err from_sqlite (
            execute fault write_counter
              (ok (update_counter requester project_id (c.next_sequence + 1) db)))
        ok (c.next_sequence, next)

  -- the loop over the acceptance criteria
  unfoldable pub insert_criteria : Text → ℕ → List Text → Db → Result Db SqliteError
  insert_criteria item_id index [] db = ok db
  insert_criteria item_id index (criterion ∷ criteria) db = do
    next ← execute fault (write_criterion index) (
        insert_criterion
          (record { item_id = item_id; criterion_index = index; criterion = criterion }) db)
    insert_criteria item_id (suc index) criteria next

  unfoldable pub insert_capture : Call → Item → Db → Result Db SqliteError
  unfolding insert_criteria
  insert_capture call item db = do
    d1 ← execute fault write_item (insert_item (item_entry item) db)
    d2 ← insert_criteria (display item.id) 0 item.content.acceptance_criteria d1
    d3 ← execute fault write_provenance (insert_provenance (provenance_entry item) d2)
    d4 ← execute fault write_operation (insert_operation (operation_entry call item) d3)
    execute fault write_event (insert_event (capture_event call item) d4)

  -- from `insert_capture` to `commit`
  unfoldable pub write_capture : Call → Item → Db → Outcome (CaptureResult × Option Db)
  unfolding insert_capture
  write_capture call item db = do
    d1 ← map_err from_sqlite (insert_capture call item db)
    d2 ←
        map_err from_sqlite
          (execute fault write_receipt (insert_receipt (receipt_entry call item) d1))
    _ ← map_err from_sqlite (execute fault write_change (ok tt))
    (_, d3) ← map_err from_journal (append_change call.identity.operation_id d2)
    d4 ← map_err from_sqlite (execute fault commit_changes (ok d3))
    ok (record { item = item; replayed = false }, some d4)

  -- no receipt was found
  unfoldable pub capture_new : Call → Db → Outcome (CaptureResult × Option Db)
  unfolding allocate write_capture
  capture_new call db = do
    let input = call.request.input
    d1 ←
        map_err from_sqlite (
          execute fault write_project
            (ok (insert_project input.project.as_str call.occurred_at db)))
    current ← map_err from_sqlite (
        execute fault read_counter
          (ok (find_counter input.requester.as_str input.project.as_str d1)))
    (sequence, d2) ← allocate input.requester.as_str input.project.as_str current d1
    id ← expected (new_item_id input.requester input.project sequence)
    write_capture call (captured_item input call.occurred_at id) d2

  unfoldable pub body : ReadStoreState → Call → Db → Outcome (CaptureResult × Option Db)
  unfolding answer_receipt capture_new
  body pinned call db = do
    _ ← map_err from_sqlite (execute fault begin (ok tt))
    current ← map_err from_sqlite (check_write_state (fault read_state) pinned db)
    if not current then err (failed restart_required) else do
      receipt ←
          map_err from_sqlite
            (execute fault read_receipt (ok (find_receipt call.request.idempotency_key db)))
      elim receipt [ none ↦ capture_new call db | some r ↦ answer_receipt call r db ]

  unfoldable pub capture_inner : ReadStoreState → Call → Db → Db × Outcome CaptureResult
  unfolding body
  capture_inner pinned call db = finish_transaction db (body pinned call db)
