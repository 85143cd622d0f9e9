-- ===== src/Domain/Mutation.antt =====
-- src/domain.rs: `Item::apply_mutation`, which plans a compound mutation on a copy of the item.
pub mod Plan
pub mod Laws
pub mod Runs
use bif.Base.{
  ℕ, ◌+◌, ◌^◌, ◌-◌, Option, none, some, List, [], ◌∷◌, ◌++◌, map, Bool, true, false, ◌&&◌, not,
  Result, ok, err, map_err, ◌>>=◌, if◌then◌else◌, ◌==◌, nat_eq,
}
use bif.Base.Text.{Text}
use bif.Domain.Identifier.{AssigneeId}
use bif.Domain.Item.{Item, Status, Priority, Revision}
use bif.Domain.Lifecycle
use bif.Domain.Lifecycle.{LifecycleError, Method, approve, reject, start, block, resume, finish}
use bif.Domain.Triage.{Triage, TriageChanges, TriageError, triage, is_some}
use bif.Domain.Triage as T

pub data LifecycleMutation : Type 0 where
  approve_item start_item resume_item finish_item : LifecycleMutation
  reject_item block_item : Text → LifecycleMutation

pub record ItemMutation : Type 0 where
  pub lifecycle : Option LifecycleMutation
  pub triage : Option Triage

pub data EventType : Type 0 where
  captured approved rejected started blocked resumed finished : EventType
  priority_changed assignee_changed note_added : EventType

pub data EventValue : Type 0 where
  status : Status → EventValue
  priority : Option Priority → EventValue
  assignee : Option AssigneeId → EventValue
  note : Text → EventValue

pub record DomainEvent : Type 0 where
  pub event_type : EventType
  pub item_revision : Revision
  pub before : Option EventValue
  pub after : Option EventValue

pub data MutationError : Type 0 where
  invalid_input invalid_transition revision_overflow : MutationError

-- `impl From<LifecycleError> for MutationError`
unfoldable pub from_lifecycle_error : LifecycleError → MutationError
from_lifecycle_error Lifecycle.invalid_input = invalid_input
from_lifecycle_error Lifecycle.invalid_transition = invalid_transition

-- `impl From<TriageError> for MutationError`
unfoldable pub from_triage_error : TriageError → MutationError
from_triage_error T.invalid_input = invalid_input
from_triage_error T.invalid_transition = invalid_transition

-- an element of `changes`
pub record Change : Type 0 where
  pub event_type : EventType
  pub before : Option EventValue
  pub after : Option EventValue

-- `planned.method()?`: on an error the copy is dropped
abbrev attempt :
    {A E : Type 0} → (E → MutationError) → Item × Result A E → Result (Item × A) MutationError
attempt f (planned, ok a) = ok (planned, a)
attempt f (planned, err e) = err (f e)

-- the method and the event type of a lifecycle component
unfoldable pub run_lifecycle : LifecycleMutation → Method EventType LifecycleError
unfolding approve reject start block resume finish
run_lifecycle approve_item planned = let (p, r) = approve planned in (p, r >>= λ _. ok approved)
run_lifecycle (reject_item reason) planned =
    let (p, r) = reject (some reason) planned in (p, r >>= λ _. ok rejected)
run_lifecycle start_item planned = let (p, r) = start planned in (p, r >>= λ _. ok started)
run_lifecycle (block_item reason) planned =
    let (p, r) = block (some reason) planned in (p, r >>= λ _. ok blocked)
run_lifecycle resume_item planned = let (p, r) = resume planned in (p, r >>= λ _. ok resumed)
run_lifecycle finish_item planned = let (p, r) = finish planned in (p, r >>= λ _. ok finished)

-- the first `if let`: the copy after the lifecycle component, and the changes so far
unfoldable pub plan_lifecycle :
    Option LifecycleMutation → Item → Result (Item × List Change) MutationError
unfolding run_lifecycle from_lifecycle_error
plan_lifecycle none planned = ok (planned, [])
plan_lifecycle (some lifecycle) planned = do
  (next, event_type) ← attempt from_lifecycle_error (run_lifecycle lifecycle planned)
  ok (
    next,
    record {
      event_type = event_type;
      before = some (status planned.status);
      after = some (status next.status);
    }
        ∷ [],
  )

abbrev pub priority_changes : Option (Option Priority × Option Priority) → List Change
priority_changes none = []
priority_changes (some (before, after)) =
    record {
      event_type = priority_changed;
      before = some (priority before);
      after = some (priority after);
    }
    ∷ []

abbrev pub assignee_changes : Option (Option AssigneeId × Option AssigneeId) → List Change
assignee_changes none = []
assignee_changes (some (before, after)) =
    record {
      event_type = assignee_changed;
      before = some (assignee before);
      after = some (assignee after);
    }
    ∷ []

abbrev pub note_changes : Option Text → List Change
note_changes none = []
note_changes (some text) =
    record { event_type = note_added; before = none; after = some (note text) } ∷ []

abbrev pub triage_changes : TriageChanges → List Change
triage_changes c =
    priority_changes c.priority ++ (assignee_changes c.assignee ++ note_changes c.note)

-- the second `if let`, which pushes onto the changes so far
unfoldable pub plan_triage :
    Option Triage → Item → List Change → Result (Item × List Change) MutationError
unfolding triage from_triage_error
plan_triage none planned changes = ok (planned, changes)
plan_triage (some t) planned changes = do
  (next, c) ← attempt from_triage_error (triage t planned)
  ok (next, changes ++ triage_changes c)

unfoldable pub plan : ItemMutation → Item → Result (Item × List Change) MutationError
plan mutation item = do
  (planned, changes) ← plan_lifecycle mutation.lifecycle item
  plan_triage mutation.triage planned changes

abbrev pub max_u64 : ℕ
max_u64 = 2 ^ 64 - 1

-- `self.revision.get().checked_add(1)`
abbrev pub next_revision : Revision → Result Revision MutationError
next_revision r = if r == max_u64 then err revision_overflow else ok (r + 1)

abbrev pub event_at : Revision → Change → DomainEvent
event_at revision c = record {
  event_type = c.event_type;
  item_revision = revision;
  before = c.before;
  after = c.after;
}

-- from `if changes.is_empty()` to the end: the new item and its events, or `none` for a no-op
unfoldable pub commit : Item → Item → List Change → Result (Item × List DomainEvent) MutationError
commit item planned [] = ok (item, [])
commit item planned (c ∷ changes) = do
  revision ← next_revision item.revision
  ok (record planned { revision = revision }, map (event_at revision) (c ∷ changes))

-- a method's outcome: an error leaves `self` as it was
abbrev settle :
    Item
    → Result (Item × List DomainEvent) MutationError
    → Item × Result (List DomainEvent) MutationError
settle item (ok (next, events)) = (next, ok events)
settle item (err e) = (item, err e)

unfoldable pub apply_mutation : ItemMutation → Method (List DomainEvent) MutationError
unfolding plan commit
apply_mutation mutation item =
    if not (is_some mutation.lifecycle) && not (is_some mutation.triage)
    then (item, err invalid_input)
    else settle item (do (planned, changes) ← plan mutation item; commit item planned changes)
