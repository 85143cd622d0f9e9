-- ===== src/Storage/Codec.antt =====
-- src/storage.rs: the text columns of an item and their decoding.
pub mod RoundTrip
use bif.Base.{
  ℕ, Bool, true, false, not, List, [], ◌∷◌, Option, none, some, Result, ok, err, ◌>>=◌, ◌>>◌,
  map_err, ok_or, if◌then◌else◌, ◌==◌, list_eq, nat_eq,
}
use bif.Base.Text.{Text, codes}
use bif.Base.Int.{ℤ, try_u64, as_i64}
use mathlib.Core.Option
use bif.Domain.Identifier.{new_requester, new_project, new_assignee, AssigneeId}
use bif.Domain.Item.{
  Item, ItemId, ItemContent, Provenance, Status, proposed, ready, in_progress, blocked, done,
  rejected, Priority, p0, p1, p2, p3, p4, SourceHost, delta, codex, local, new_item_id, new_content,
  new_revision, Timestamp,
}
use bif.Domain.Item.Display.{display}

-- what `rusqlite` reports, as far as the code tells it apart
pub data SqliteError : Type 0 where
  database_busy database_locked query_returned_no_rows invalid_query constraint full : SqliteError
  invalid_parameter_count : ℕ → ℕ → SqliteError
  conversion_failure other : SqliteError

-- the details of `InvalidPersistedData`, a constructor for each message
pub data Detail : Type 0 where
  bad_requester bad_project bad_sequence bad_identity id_mismatch bad_content : Detail
  bad_assignee bad_revision disappeared : Detail
  unknown_status unknown_priority unknown_source_host : Text → Detail

pub data ItemStorageError : Type 0 where
  sqlite : SqliteError → ItemStorageError
  invalid_persisted_data : Text → Detail → ItemStorageError

unfoldable pub status_text : Status → Text
status_text proposed = codes "proposed"
status_text ready = codes "ready"
status_text in_progress = codes "in_progress"
status_text blocked = codes "blocked"
status_text done = codes "done"
status_text rejected = codes "rejected"

unfoldable pub priority_text : Priority → Text
priority_text p0 = codes "P0"
priority_text p1 = codes "P1"
priority_text p2 = codes "P2"
priority_text p3 = codes "P3"
priority_text p4 = codes "P4"

unfoldable pub source_host_text : SourceHost → Text
source_host_text delta = codes "delta"
source_host_text codex = codes "codex"
source_host_text local = codes "local"

unfoldable pub parse_status : Text → Text → Result Status ItemStorageError
parse_status value item_id =
    if value == codes "proposed"
    then ok proposed
    else if value == codes "ready"
    then ok ready
    else if value == codes "in_progress"
    then ok in_progress
    else if value == codes "blocked"
    then ok blocked
    else if value == codes "done"
    then ok done
    else if value == codes "rejected"
    then ok rejected
    else err (invalid_persisted_data item_id (unknown_status value))

unfoldable pub parse_priority : Text → Text → Result Priority ItemStorageError
parse_priority value item_id =
    if value == codes "P0"
    then ok p0
    else if value == codes "P1"
    then ok p1
    else if value == codes "P2"
    then ok p2
    else if value == codes "P3"
    then ok p3
    else if value == codes "P4"
    then ok p4
    else err (invalid_persisted_data item_id (unknown_priority value))

unfoldable pub parse_source_host : Text → Text → Result SourceHost ItemStorageError
parse_source_host value item_id =
    if value == codes "delta"
    then ok delta
    else if value == codes "codex"
    then ok codex
    else if value == codes "local"
    then ok local
    else err (invalid_persisted_data item_id (unknown_source_host value))

-- the columns of `items` behind its key
pub record ItemColumns : Type 0 where
  pub requester : Text
  pub project_id : Text
  pub sequence : ℤ
  pub title : Text
  pub description : Option Text
  pub status : Text
  pub priority : Option Text
  pub assignee : Option Text
  pub status_reason : Option Text
  pub revision : ℤ
  pub captured_at : Text
  pub updated_at : Text

-- the columns of `item_provenance` behind its key
pub record ProvenanceColumns : Type 0 where
  pub source_host : Option Text
  pub thread_id : Option Text
  pub message_id : Option Text
  pub url : Option Text
  pub repository_reference : Option Text
  pub revision_reference : Option Text
  pub context_excerpt : Option Text

-- `ItemRow`: what `load_item` selects from the join of the two tables
pub record ItemRow : Type 0 where
  pub columns : ItemColumns
  pub open columns use *
  pub provenance : ProvenanceColumns
  pub open provenance use *

-- `option.map(f).transpose()?`
abbrev pub traverse : {A B E : Type 0} → (A → Result B E) → Option A → Result (Option B) E
traverse f none = ok none
traverse f (some a) = f a >>= λ b. ok (some b)

abbrev pub replace_err : {A E F : Type 0} → F → Result A E → Result A F
replace_err e m = map_err (λ _. e) m

-- a helper of `decode_item`: the bound `Revision::new(u64::try_from(…)?)?`
abbrev pub read_u64 : ItemStorageError → ℤ → Result ℕ ItemStorageError
read_u64 e z = ok_or e (try_u64 z)

unfoldable pub decode_item : Text → ItemRow → List Text → Result Item ItemStorageError
decode_item item_id row criteria = do
  let invalid = invalid_persisted_data item_id
  requester ← replace_err (invalid bad_requester) (new_requester row.requester)
  project ← replace_err (invalid bad_project) (new_project row.project_id)
  sequence ← read_u64 (invalid bad_sequence) row.sequence
  id ← replace_err (invalid bad_identity) (new_item_id requester project sequence)
  if not (display id == item_id) then err (invalid id_mismatch) else do
    content ← replace_err (invalid bad_content) (new_content row.title row.description criteria)
    source_host ← traverse (λ value. parse_source_host value item_id) row.source_host
    status ← parse_status row.status item_id
    priority ← traverse (λ value. parse_priority value item_id) row.priority
    assignee ← replace_err (invalid bad_assignee) (traverse new_assignee row.assignee)
    number ← read_u64 (invalid bad_revision) row.revision
    revision ← replace_err (invalid bad_revision) (new_revision number)
    ok (record {
      id = id;
      content = content;
      status = status;
      priority = priority;
      assignee = assignee;
      status_reason = row.status_reason;
      revision = revision;
      captured_at = row.captured_at;
      updated_at = row.updated_at;
      provenance = record {
        source_host = source_host;
        thread_id = row.thread_id;
        message_id = row.message_id;
        url = row.url;
        repository_reference = row.repository_reference;
        revision_reference = row.revision_reference;
        context_excerpt = row.context_excerpt;
      };
    })

-- What the INSERT of `insert_capture` and the UPDATE of `mutate` leave in the columns of an item.
unfoldable pub item_columns : Item → ItemColumns
item_columns item = record {
  requester = item.id.requester.as_str;
  project_id = item.id.project.as_str;
  sequence = as_i64 item.id.sequence;
  title = item.content.title;
  description = item.content.description;
  status = status_text item.status;
  priority = Option.map priority_text item.priority;
  assignee = Option.map (λ (a : AssigneeId). a.as_str) item.assignee;
  status_reason = item.status_reason;
  revision = as_i64 item.revision;
  captured_at = item.captured_at;
  updated_at = item.updated_at;
}

-- the second INSERT of `insert_capture`
unfoldable pub provenance_columns : Provenance → ProvenanceColumns
provenance_columns p = record {
  source_host = Option.map source_host_text p.source_host;
  thread_id = p.thread_id;
  message_id = p.message_id;
  url = p.url;
  repository_reference = p.repository_reference;
  revision_reference = p.revision_reference;
  context_excerpt = p.context_excerpt;
}

abbrev pub item_row : Item → ItemRow
item_row item = record {
  columns = item_columns item;
  provenance = provenance_columns item.provenance;
}
