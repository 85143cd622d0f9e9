-- ===== src/Storage/History.antt =====
-- src/storage.rs: the rows of `events` as the events of an item's history.
pub mod RoundTrip
pub mod Queries
pub mod Pages
pub mod Written
pub mod Growth
use bif.Base.{
  ℕ, suc, Bool, true, false, not, ◌&&◌, List, [], ◌∷◌, Option, none, some, Result, ok, err, ◌>>=◌,
  map_err, ok_or, if◌then◌else◌, ◌==◌, list_eq, nat_eq,
}
use bif.Base.Text.{Text, codes}
use bif.Base.Int.{ℤ, pos, negsuc, try_u64}
use bif.Domain.Identifier.{new_assignee, is_empty}
use bif.Domain.Item.{
  Status, proposed, ready, in_progress, done, Priority, p0, p1, p2, p3, p4, Revision, new_revision,
}
use bif.Domain.Item as I
use bif.Domain.Item.Display.{to_decimal}
use bif.Domain.Mutation.{
  EventType, captured, approved, started, resumed, finished, priority_changed, assignee_changed,
  note_added, EventValue,
}
use bif.Domain.Mutation as M
use bif.Application.Authorize.{ActorKind, human, agent}
use bif.Application.History.{
  EventExecution, direct, agent_execution, ItemHistoryEvent, ItemHistoryStoreError,
}
use bif.Application.History as H
use bif.Storage.Codec.{SqliteError}
use bif.Storage.Db.{EventEntry}

pub data ItemHistoryStorageError : Type 0 where
  sqlite : SqliteError → ItemHistoryStorageError
  invalid_persisted_data : Text → Text → ItemHistoryStorageError  -- field, value

abbrev pub HistoryError : Type 0
HistoryError = ItemHistoryStoreError ItemHistoryStorageError

abbrev pub history_sqlite : SqliteError → HistoryError
history_sqlite e = ItemHistoryStoreError.storage (sqlite e)

unfoldable pub invalid_history : Text → Text → HistoryError
invalid_history field value =
    ItemHistoryStoreError.invalid_persisted_data (invalid_persisted_data field value)

-- the columns that both history queries select, in `HistoryRow`'s order
pub record HistoryRow : Type 0 where
  pub operation_id : Text
  pub event_id : Text
  pub item_revision : ℤ
  pub event_index : ℤ
  pub event_type : Text
  pub before_value : Option Text
  pub after_value : Option Text
  pub actor_kind : Text
  pub actor_id : Text
  pub actor_surface : Text
  pub actor_host : Text
  pub execution_kind : Text
  pub execution_agent_id : Option Text
  pub execution_surface : Text
  pub execution_host : Text
  pub reason : Option Text
  pub note : Option Text
  pub occurred_at : Text
  pub event_schema_version : ℤ

-- `read_history_row`; both INSERTs of events write 1 as the schema version
unfoldable pub history_row : EventEntry → HistoryRow
history_row e = record {
  operation_id = e.operation_id;
  event_id = e.event_id;
  item_revision = e.item_revision;
  event_index = pos e.event_index;
  event_type = e.event_type;
  before_value = e.before_value;
  after_value = e.after_value;
  actor_kind = e.actor_kind;
  actor_id = e.actor_id;
  actor_surface = e.actor_surface;
  actor_host = e.actor_host;
  execution_kind = e.execution_kind;
  execution_agent_id = e.execution_agent_id;
  execution_surface = e.execution_surface;
  execution_host = e.execution_host;
  reason = e.reason;
  note = e.note;
  occurred_at = e.occurred_at;
  event_schema_version = pos 1;
}

unfoldable pub parse_history_event_type : Text → Result EventType HistoryError
unfolding invalid_history
parse_history_event_type value =
    if value == codes "captured"
    then ok captured
    else if value == codes "approved"
    then ok approved
    else if value == codes "rejected"
    then ok M.rejected
    else if value == codes "started"
    then ok started
    else if value == codes "blocked"
    then ok M.blocked
    else if value == codes "resumed"
    then ok resumed
    else if value == codes "finished"
    then ok finished
    else if value == codes "priority_changed"
    then ok priority_changed
    else if value == codes "assignee_changed"
    then ok assignee_changed
    else if value == codes "note_added"
    then ok note_added
    else err (invalid_history (codes "event_type") value)

unfoldable pub parse_history_status : Text → Option Status
parse_history_status value =
    if value == codes "proposed"
    then some proposed
    else if value == codes "ready"
    then some ready
    else if value == codes "in_progress"
    then some in_progress
    else if value == codes "blocked"
    then some I.blocked
    else if value == codes "done"
    then some done
    else if value == codes "rejected"
    then some I.rejected
    else none

unfoldable pub parse_history_priority : Text → Option Priority
parse_history_priority value =
    if value == codes "P0"
    then some p0
    else if value == codes "P1"
    then some p1
    else if value == codes "P2"
    then some p2
    else if value == codes "P3"
    then some p3
    else if value == codes "P4"
    then some p4
    else none

-- the arms of the `match event_type` in `parse_history_value`
abbrev pub parse_status_value : Text → Text → Result EventValue HistoryError
parse_status_value field value = do
  s ← ok_or (invalid_history field value) (parse_history_status value)
  ok (M.status s)

abbrev pub parse_priority_value : Text → Text → Result EventValue HistoryError
parse_priority_value field value = if value == codes "null" then ok (M.priority none) else (do
  p ← ok_or (invalid_history field value) (parse_history_priority value)
  ok (M.priority (some p)))

abbrev pub parse_assignee_value : Text → Text → Result EventValue HistoryError
parse_assignee_value field value = if value == codes "null" then ok (M.assignee none) else (do
  a ← map_err (λ _. invalid_history field value) (new_assignee value)
  ok (M.assignee (some a)))

unfoldable pub parse_typed_value : EventType → Text → Text → Result EventValue HistoryError
parse_typed_value captured field value = err (invalid_history field value)
parse_typed_value priority_changed field value = parse_priority_value field value
parse_typed_value assignee_changed field value = parse_assignee_value field value
parse_typed_value note_added field value = ok (M.note value)
parse_typed_value _ field value = parse_status_value field value

unfoldable pub parse_history_value :
    EventType → Text → Option Text → Result (Option EventValue) HistoryError
unfolding parse_typed_value
parse_history_value event_type field none = ok none
parse_history_value event_type field (some value) = do
  parsed ← parse_typed_value event_type field value
  ok (some parsed)

-- `i64::to_string`
abbrev show_int : ℤ → Text
show_int (pos n) = to_decimal n
show_int (negsuc n) = b'-' ∷ to_decimal (suc n)

abbrev pub parse_actor_kind : Text → Result ActorKind HistoryError
parse_actor_kind value =
    if value == codes "human"
    then ok human
    else if value == codes "agent"
    then ok agent
    else err (invalid_history (codes "actor_kind") value)

-- `row.12.filter(|value| !value.is_empty())`
abbrev pub nonempty : Option Text → Option Text
nonempty none = none
nonempty (some value) = if is_empty value then none else some value

abbrev pub is_none : Option Text → Bool
is_none none = true
is_none (some a) = false

-- the `match row.11`
abbrev pub parse_execution : HistoryRow → Result EventExecution HistoryError
parse_execution row =
    if row.execution_kind == codes "direct" && is_none row.execution_agent_id
    then ok (direct row.execution_surface row.execution_host)
    else if row.execution_kind == codes "agent"
    then (do
      agent_id ←
          ok_or (invalid_history (codes "execution_agent_id") (codes "NULL"))
            (nonempty row.execution_agent_id)
      ok (agent_execution agent_id row.execution_surface row.execution_host))
    else err (invalid_history (codes "execution_kind") row.execution_kind)

abbrev pub parse_revision : ℤ → Result Revision HistoryError
parse_revision z = do
  let invalid = invalid_history (codes "item_revision") (show_int z)
  n ← ok_or invalid (try_u64 z)
  map_err (λ _. invalid) (new_revision n)

abbrev pub parse_schema_version : ℤ → Result ℕ HistoryError
parse_schema_version z = do
  let invalid = invalid_history (codes "event_schema_version") (show_int z)
  version ← ok_or invalid (try_u64 z)
  if not (version == 1) then err invalid else ok version

unfoldable pub history_event : HistoryRow → Result ItemHistoryEvent HistoryError
unfolding parse_history_value parse_history_event_type
history_event row = do
  revision ← parse_revision row.item_revision
  event_index ←
      ok_or (invalid_history (codes "event_index") (show_int row.event_index))
        (try_u64 row.event_index)
  event_type ← parse_history_event_type row.event_type
  before ← parse_history_value event_type (codes "before_value") row.before_value
  after ← parse_history_value event_type (codes "after_value") row.after_value
  kind ← parse_actor_kind row.actor_kind
  execution ← parse_execution row
  schema_version ← parse_schema_version row.event_schema_version
  ok (record {
    operation_id = row.operation_id;
    event_id = row.event_id;
    item_revision = revision;
    event_index = event_index;
    event_type = event_type;
    before = before;
    after = after;
    actor = record {
      kind = kind;
      id = row.actor_id;
      surface = row.actor_surface;
      host = row.actor_host;
    };
    execution = execution;
    reason = row.reason;
    note = row.note;
    occurred_at = row.occurred_at;
    schema_version = schema_version;
  })
