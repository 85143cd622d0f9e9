-- ===== src/Domain/Item.antt =====
-- src/domain.rs: item identity, content, provenance and the item itself. A `u64` is a natural
-- number, its range stated where it matters.
pub mod Display
use bif.Base.{
  ℕ, suc, ◌+◌, Bool, List, [], ◌∷◌, Option, none, some, ◌≡◌, ap, Result, ok, err, if◌then◌else◌,
  ◌==◌, nat_eq, Eq, List-discrete, ℕ_discrete,
}
use bif.Base.Text.{Text}
use bif.Domain.Identifier.{RequesterId, ProjectId, AssigneeId, is_empty}

pub data InvalidItemSequence : Type 0 where
  invalid_item_sequence : InvalidItemSequence

pub record ItemId : Type 0 where
  pub requester : RequesterId
  pub project : ProjectId
  pub sequence : ℕ

unfoldable pub new_item_id : RequesterId → ProjectId → ℕ → Result ItemId InvalidItemSequence
new_item_id requester project sequence =
    if sequence == 0
    then err invalid_item_sequence
    else ok (record { requester = requester; project = project; sequence = sequence })

pub data EmptyTitle : Type 0 where
  empty_title : EmptyTitle

pub record ItemContent : Type 0 where
  pub title : Text
  pub description : Option Text
  pub acceptance_criteria : List Text

unfoldable pub new_content : Text → Option Text → List Text → Result ItemContent EmptyTitle
new_content title description criteria =
    if is_empty title
    then err empty_title
    else ok (record { title = title; description = description; acceptance_criteria = criteria })

pub data Status : Type 0 where
  proposed ready in_progress blocked done rejected : Status

pub data Priority : Type 0 where
  p0 p1 p2 p3 p4 : Priority

pub data SourceHost : Type 0 where
  delta codex local : SourceHost

-- an opaque text, as all the types of the macro `opaque_reference!`
abbrev pub Timestamp : Type 0
Timestamp = Text

pub data InvalidRevision : Type 0 where
  invalid_revision : InvalidRevision

-- `Revision(u64)`
abbrev pub Revision : Type 0
Revision = ℕ

unfoldable pub new_revision : ℕ → Result Revision InvalidRevision
new_revision value = if value == 0 then err invalid_revision else ok value

pub record Provenance : Type 0 where
  pub source_host : Option SourceHost
  pub thread_id : Option Text
  pub message_id : Option Text
  pub url : Option Text
  pub repository_reference : Option Text
  pub revision_reference : Option Text
  pub context_excerpt : Option Text

pub record Item : Type 0 where
  pub id : ItemId
  pub content : ItemContent
  pub status : Status
  pub priority : Option Priority
  pub assignee : Option AssigneeId
  pub status_reason : Option Text
  pub revision : Revision
  pub captured_at : Timestamp
  pub updated_at : Timestamp
  pub provenance : Provenance

-- `Item::capture`
unfoldable pub new_capture : ItemId → ItemContent → Provenance → Timestamp → Timestamp → Item
new_capture id content provenance captured_at updated_at = record {
  id = id;
  content = content;
  status = proposed;
  priority = none;
  assignee = none;
  status_reason = none;
  revision = 1;
  captured_at = captured_at;
  updated_at = updated_at;
  provenance = provenance;
}

-- `Item::set_updated_at`
unfoldable pub set_updated_at : Timestamp → Item → Item
set_updated_at t item = record item { updated_at = t }

-- the derived `PartialEq`
unfoldable pub Status-discrete : Discrete Status
Status-discrete = hlevel

unfoldable pub Priority-discrete : Discrete Priority
Priority-discrete = hlevel

unfoldable pub RequesterId-discrete : Discrete RequesterId
unfolding List-discrete ℕ_discrete
RequesterId-discrete a b = elim (List-discrete ℕ_discrete a.as_str b.as_str) [
  | yes p ↦ yes (λ i. record { as_str = p i })
  | no n ↦ no (λ e. n (ap (λ (r : RequesterId). r.as_str) e))
]

unfoldable pub ProjectId-discrete : Discrete ProjectId
unfolding List-discrete ℕ_discrete
ProjectId-discrete a b = elim (List-discrete ℕ_discrete a.as_str b.as_str) [
  | yes p ↦ yes (λ i. record { as_str = p i })
  | no n ↦ no (λ e. n (ap (λ (r : ProjectId). r.as_str) e))
]

unfoldable pub AssigneeId-discrete : Discrete AssigneeId
unfolding List-discrete ℕ_discrete
AssigneeId-discrete a b = elim (List-discrete ℕ_discrete a.as_str b.as_str) [
  | yes p ↦ yes (λ i. record { as_str = p i })
  | no n ↦ no (λ e. n (ap (λ (r : AssigneeId). r.as_str) e))
]

instance abbrev pub status_eq : Eq Status
status_eq = record { dec = Status-discrete }

instance abbrev pub priority_eq : Eq Priority
priority_eq = record { dec = Priority-discrete }

instance abbrev pub requester_eq : Eq RequesterId
requester_eq = record { dec = RequesterId-discrete }

instance abbrev pub project_eq : Eq ProjectId
project_eq = record { dec = ProjectId-discrete }

instance abbrev pub assignee_eq : Eq AssigneeId
assignee_eq = record { dec = AssigneeId-discrete }
