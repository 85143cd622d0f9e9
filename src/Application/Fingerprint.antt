-- ===== src/Application/Fingerprint.antt =====
-- src/application/read_semantics.rs: `ItemQueryFingerprintInput` and its canonical bytes.
pub mod Injectivity
use bif.Base.{ℕ, ◌+◌, ◌/◌, ◌%◌, ◌^◌, List, [], ◌∷◌, ◌++◌, Option, none, some, length}
use bif.Base.Text.{Text, Bytes, codes, utf8}
use bif.Domain.Identifier.{RequesterId, ProjectId}
use bif.Domain.Item.{Status, proposed, ready, in_progress, blocked, done, rejected, Priority}
use bif.Application.Payload.{be_bytes}
use bif.Application.Listing.{ItemListOrdering, newest_first, next, priority_rank}
use bif.Application.ReadSemantics.{
  EffectiveItemFilters, AssigneeFilter, any_assignee, unassigned, assigned,
}

pub data ItemReadOperation : Type 0 where
  list_operation next_operation : ItemReadOperation

pub data ItemProjectionKind : Type 0 where
  summary work audit : ItemProjectionKind

pub record ItemQueryFingerprintInput : Type 0 where
  pub operation : ItemReadOperation
  pub store_identity : Text
  pub projection_schema_version : ℕ
  pub filters : EffectiveItemFilters
  pub ordering : ItemListOrdering
  pub projection : ItemProjectionKind

abbrev pub operation_tag : ItemReadOperation → ℕ
operation_tag list_operation = 0
operation_tag next_operation = 1

abbrev pub projection_tag : ItemProjectionKind → ℕ
projection_tag summary = 0
projection_tag work = 1
projection_tag audit = 2

abbrev pub ordering_tag : ItemListOrdering → ℕ
ordering_tag newest_first = 0
ordering_tag next = 1

abbrev pub status_tag : Status → ℕ
status_tag proposed = 0
status_tag ready = 1
status_tag in_progress = 2
status_tag blocked = 3
status_tag done = 4
status_tag rejected = 5

-- `u32::to_be_bytes`
unfoldable pub be_bytes_u32 : ℕ → Bytes
be_bytes_u32 n = (n / 2 ^ 24 % 256) ∷ (n / 2 ^ 16 % 256) ∷ (n / 2 ^ 8 % 256) ∷ (n % 256) ∷ []

unfoldable pub append_string : Bytes → Text → Bytes
append_string bytes value = (bytes ++ be_bytes (length (utf8 value))) ++ utf8 value

unfoldable pub append_optional_string : Bytes → Option Text → Bytes
unfolding append_string
append_optional_string bytes none = bytes ++ 0 ∷ []
append_optional_string bytes (some value) = append_string (bytes ++ 1 ∷ []) value

-- the loop over the statuses
unfoldable pub append_statuses : Bytes → List Status → Bytes
append_statuses bytes [] = bytes
append_statuses bytes (s ∷ ss) = append_statuses (bytes ++ status_tag s ∷ []) ss

unfoldable pub append_assignee : Bytes → AssigneeFilter → Bytes
unfolding append_string
append_assignee bytes any_assignee = bytes ++ 0 ∷ []
append_assignee bytes (assigned a) = append_string (bytes ++ 1 ∷ []) a.as_str
append_assignee bytes unassigned = bytes ++ 2 ∷ []

unfoldable pub append_priority : Bytes → Option Priority → Bytes
append_priority bytes none = bytes ++ 0 ∷ []
append_priority bytes (some p) = (bytes ++ 1 ∷ []) ++ priority_rank (some p) ∷ []

abbrev pub project_text : Option ProjectId → Option Text
project_text none = none
project_text (some p) = some p.as_str

abbrev pub requester_text : Option RequesterId → Option Text
requester_text none = none
requester_text (some r) = some r.as_str

unfoldable pub canonical_bytes : ItemQueryFingerprintInput → Bytes
unfolding append_string append_optional_string append_statuses append_assignee append_priority
    be_bytes_u32
canonical_bytes q =
    let bytes = codes "BIF:item-query:1" ++ 0 ∷ [] in
    let bytes = bytes ++ operation_tag q.operation ∷ [] in
    let bytes = append_string bytes q.store_identity in
    let bytes = bytes ++ be_bytes_u32 q.projection_schema_version in
    let bytes = bytes ++ projection_tag q.projection ∷ [] in
    let bytes = bytes ++ ordering_tag q.ordering ∷ [] in
    let bytes = bytes ++ (length q.filters.statuses % 2 ^ 8) ∷ [] in
    let bytes = append_statuses bytes q.filters.statuses in
    let bytes = append_optional_string bytes (project_text q.filters.project) in
    let bytes = append_optional_string bytes (requester_text q.filters.requester) in
    let bytes = append_assignee bytes q.filters.assignee in
    let bytes = append_priority bytes q.filters.priority in
    append_optional_string bytes q.filters.text
