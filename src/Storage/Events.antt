-- ===== src/Storage/Events.antt =====
-- src/storage.rs: the `events` rows of a mutation and what its receipt calls it.
use bif.Base.{ℕ, List, [], ◌∷◌, Option, none, some}
use bif.Base.Text.{Text, codes}
use bif.Base.Int.{as_i64}
use mathlib.Core.Option
use bif.Domain.Identifier.{AssigneeId}
use bif.Domain.Item.{Timestamp}
use bif.Domain.Mutation
use bif.Domain.Mutation.{
  ItemMutation, LifecycleMutation, reject_item, block_item, DomainEvent, EventType, captured,
  approved, started, resumed, finished, priority_changed, assignee_changed, note_added, EventValue,
}
use bif.Application.Authorize.{ActorKind, human, agent, Actor, Execution, direct, agent_execution}
use bif.Storage.Codec.{status_text, priority_text}
use bif.Storage.Db.{EventEntry}

unfoldable pub event_type : EventType → Text
event_type captured = codes "captured"
event_type approved = codes "approved"
event_type Mutation.rejected = codes "rejected"
event_type started = codes "started"
event_type Mutation.blocked = codes "blocked"
event_type resumed = codes "resumed"
event_type finished = codes "finished"
event_type priority_changed = codes "priority_changed"
event_type assignee_changed = codes "assignee_changed"
event_type note_added = codes "note_added"

abbrev pub or_null : {A : Type 0} → (A → Text) → Option A → Text
or_null f none = codes "null"
or_null f (some a) = f a

unfoldable pub event_value : EventValue → Text
event_value (Mutation.status s) = status_text s
event_value (Mutation.priority p) = or_null priority_text p
event_value (Mutation.assignee a) = or_null (λ (x : AssigneeId). x.as_str) a
event_value (Mutation.note text) = text

abbrev lifecycle_reason : Option LifecycleMutation → Option Text
lifecycle_reason (some (reject_item reason)) = some reason
lifecycle_reason (some (block_item reason)) = some reason
lifecycle_reason _ = none

unfoldable pub mutation_reason : ItemMutation → Option Text
mutation_reason mutation = lifecycle_reason mutation.lifecycle

-- the name of an only event's type; a compound mutation is a triage
unfoldable pub mutation_type : List DomainEvent → Text
mutation_type [] = codes "triage"
mutation_type (e ∷ f ∷ events) = codes "triage"
mutation_type (e ∷ []) = elim e.event_type [
  | approved ↦ codes "approve"
  | Mutation.rejected ↦ codes "reject"
  | priority_changed ↦ codes "prioritize"
  | assignee_changed ↦ codes "assign"
  | started ↦ codes "start"
  | Mutation.blocked ↦ codes "block"
  | resumed ↦ codes "resume"
  | finished ↦ codes "finish"
  | note_added ↦ codes "triage"
  | captured ↦ codes "triage"
]

abbrev pub actor_kind : ActorKind → Text
actor_kind human = codes "human"
actor_kind agent = codes "agent"

-- the kind, the agent, the surface and the host of an execution
abbrev pub execution_columns : Execution → Text × Option Text × Text × Text
execution_columns (direct surface host) = (codes "direct", none, surface, host)
execution_columns (agent_execution agent_id surface host) =
    (codes "agent", some agent_id, surface, host)

abbrev pub event_note : Option EventValue → Option Text
event_note (some (Mutation.note text)) = some text
event_note _ = none

-- `reason.filter(…)`
abbrev pub event_reason : EventType → Option Text → Option Text
event_reason Mutation.rejected reason = reason
event_reason Mutation.blocked reason = reason
event_reason _ reason = none

-- what all the events of an operation share
pub record EventContext : Type 0 where
  pub operation_id : Text
  pub item_id : Text
  pub actor : Actor
  pub execution : Execution
  pub reason : Option Text
  pub occurred_at : Timestamp

-- the parameters of the INSERT of `insert_mutation_event`
unfoldable pub event_entry : EventContext → Text → ℕ → DomainEvent → EventEntry
event_entry c event_id index event =
    let (kind, agent_id, surface, host) = execution_columns c.execution in
    record {
      event_id = event_id;
      operation_id = c.operation_id;
      item_id = c.item_id;
      item_revision = as_i64 event.item_revision;
      event_index = index;
      event_type = event_type event.event_type;
      before_value = Option.map event_value event.before;
      after_value = Option.map event_value event.after;
      actor_kind = actor_kind c.actor.kind;
      actor_id = c.actor.id;
      actor_surface = c.actor.surface;
      actor_host = c.actor.host;
      execution_kind = kind;
      execution_agent_id = agent_id;
      execution_surface = surface;
      execution_host = host;
      reason = event_reason event.event_type c.reason;
      note = event_note event.after;
      occurred_at = c.occurred_at;
    }
