-- ===== src/Storage/Codec/RoundTrip.antt =====
-- What is written to the text columns is read back.
use bif.Base.{
  ◌^◌, ◌<◌, ◌≡◌, ◌≢◌, refl, false, Option, none, some, ok, arith, list_eq, nat_eq, List-discrete,
  ℕ_discrete,
}
use mathlib.Core.Option
use bif.Base.Text.{Text}
use bif.Base.Int.{as_i64_of_lt}
use bif.Domain.Identifier.{AssigneeId, lower, new_assignee, is_empty}
use bif.Domain.Identifier.Canonical.{
  IsCanonical, new_requester_canonical, new_project_canonical, new_assignee_canonical,
}
use bif.Domain.Item.{
  Item, Status, Priority, SourceHost, proposed, ready, p0, delta, new_item_id, new_content,
  new_revision,
}
use bif.Domain.Item.Display.{display, IsCanonicalId}
use bif.Storage.Codec.{
  status_text, priority_text, source_host_text, parse_status, parse_priority, parse_source_host,
  decode_item, item_row, item_columns, provenance_columns, traverse,
}

pub parse_status-status_text :
    (s : Status) (item_id : Text) → parse_status (status_text s) item_id ≡ ok s
unfolding parse_status status_text List-discrete ℕ_discrete
parse_status-status_text proposed item_id = refl
parse_status-status_text ready item_id = refl
parse_status-status_text _ item_id = refl

pub parse_priority-priority_text :
    (p : Priority) (item_id : Text) → parse_priority (priority_text p) item_id ≡ ok p
unfolding parse_priority priority_text List-discrete ℕ_discrete
parse_priority-priority_text p0 item_id = refl
parse_priority-priority_text _ item_id = refl

pub parse_source_host-source_host_text :
    (h : SourceHost) (item_id : Text) → parse_source_host (source_host_text h) item_id ≡ ok h
unfolding parse_source_host source_host_text List-discrete ℕ_discrete
parse_source_host-source_host_text delta item_id = refl
parse_source_host-source_host_text _ item_id = refl

-- the only text read as a status is the one that is written for it
pub parse_status-ok :
    (value item_id : Text) {s : Status} → parse_status value item_id ≡ ok s → value ≡ status_text s
unfolding parse_status status_text
parse_status-ok value item_id h = ground arith

abbrev pub IsCanonicalAssignee : Option AssigneeId → Type 0
IsCanonicalAssignee none = Unit
IsCanonicalAssignee (some a) = IsCanonical lower a.as_str

-- an item as the domain's constructors make it, with numbers that fit a column
pub record IsStorable (item : Item) : Type 0 where
  pub id : IsCanonicalId item.id
  pub sequence : item.id.sequence ≢ 0
  pub sequence_fits : item.id.sequence < 2 ^ 63
  pub title : is_empty item.content.title ≡ false
  pub assignee : IsCanonicalAssignee item.assignee
  pub revision : item.revision ≢ 0
  pub revision_fits : item.revision < 2 ^ 63

assignee_column :
    (a : Option AssigneeId)
    → IsCanonicalAssignee a
    → traverse new_assignee (Option.map (λ (x : AssigneeId). x.as_str) a) ≡ ok a
assignee_column none h = refl
assignee_column (some a) h = rw (new_assignee_canonical a h) refl

priority_column :
    (p : Option Priority) (item_id : Text)
    → traverse (λ value. parse_priority value item_id) (Option.map priority_text p) ≡ ok p
priority_column none item_id = refl
priority_column (some p) item_id = rw (parse_priority-priority_text p item_id) refl

source_host_column :
    (h : Option SourceHost) (item_id : Text)
    → traverse (λ value. parse_source_host value item_id) (Option.map source_host_text h) ≡ ok h
source_host_column none item_id = refl
source_host_column (some h) item_id = rw (parse_source_host-source_host_text h item_id) refl

pub decode_item-item_row :
    (item : Item)
    → IsStorable item
    → decode_item (display item.id) (item_row item) item.content.acceptance_criteria ≡ ok item
unfolding decode_item item_columns provenance_columns new_item_id new_content new_revision
decode_item-item_row item h = ground (
  arith,
  new_requester_canonical item.id.requester h.id.0,
  new_project_canonical item.id.project h.id.1,
  as_i64_of_lt item.id.sequence h.sequence_fits,
  as_i64_of_lt item.revision h.revision_fits,
  source_host_column item.provenance.source_host (display item.id),
  parse_status-status_text item.status (display item.id),
  priority_column item.priority (display item.id),
  assignee_column item.assignee h.assignee,
)
