-- ===== src/Storage/History/RoundTrip.antt =====
-- The row that a mutation writes for an event, read back as an event of the history.
use bif.Base.{
  ℕ, ◌^◌, ◌<◌, ◌≡◌, ◌≢◌, ◌↔◌, refl, false, Option, none, some, ok, arith, ◌==◌, list_eq, nat_eq,
  List-discrete, ℕ_discrete,
}
use mathlib.Core.Option
use bif.Base.Text.{Text, codes}
use bif.Base.Int.{as_i64, as_i64_of_lt}
use bif.Domain.Identifier.{AssigneeId, is_empty}
use bif.Domain.Item.{Status, proposed, ready, Priority, p0, new_revision}
use bif.Domain.Mutation.{
  EventType, captured, approved, started, resumed, finished, priority_changed, assignee_changed,
  note_added, EventValue, DomainEvent,
}
use bif.Domain.Mutation as M
use bif.Application.Authorize.{ActorKind, human, agent, Execution}
use bif.Application.Authorize as A
use bif.Application.History.{EventExecution, direct, agent_execution, ItemHistoryEvent}
use bif.Storage.Codec.{status_text, priority_text}
use bif.Domain.Identifier.Canonical.{new_assignee_canonical}
use bif.Storage.Codec.RoundTrip.{IsCanonicalAssignee}
use bif.Storage.Events.{
  event_type, event_value, event_entry, EventContext, event_reason, event_note, actor_kind,
}
use bif.Storage.History.{
  history_row, history_event, parse_history_event_type, parse_history_status,
  parse_history_priority, parse_history_value, parse_typed_value, parse_actor_kind, parse_execution,
  parse_revision,
}

-- a change of a value's type, as the event's type says
abbrev pub Fits : EventType → EventValue → Type 0
Fits captured v = ⊥
Fits priority_changed (M.priority p) = Unit
Fits priority_changed v = ⊥
Fits assignee_changed (M.assignee a) = IsCanonicalAssignee a
Fits assignee_changed v = ⊥
Fits note_added (M.note t) = Unit
Fits note_added v = ⊥
Fits t (M.status s) = Unit
Fits t v = ⊥

abbrev pub FitsAll : EventType → Option EventValue → Type 0
FitsAll t none = Unit
FitsAll t (some v) = Fits t v

-- no assignee has the name that stands for none
abbrev pub IsNamed : Option EventValue → Type 0
IsNamed (some (M.assignee (some a))) = a.as_str ≢ codes "null"
IsNamed _ = Unit

-- an event whose numbers fit a column and whose values are of its type
pub record IsWritable (e : DomainEvent) : Type 0 where
  pub revision : e.item_revision ≢ 0
  pub revision_fits : e.item_revision < 2 ^ 63
  pub before : FitsAll e.event_type e.before
  pub after : FitsAll e.event_type e.after

-- an agent has a name
abbrev pub IsIdentified : Execution → Type 0
IsIdentified (A.direct surface host) = Unit
IsIdentified (A.agent_execution agent_id surface host) = is_empty agent_id ≡ false

abbrev pub execution_of : Execution → EventExecution
execution_of (A.direct surface host) = direct surface host
execution_of (A.agent_execution agent_id surface host) = agent_execution agent_id surface host

-- the event of the history that an event of the domain becomes
abbrev pub recorded : EventContext → Text → ℕ → DomainEvent → ItemHistoryEvent
recorded c event_id index e = record {
  operation_id = c.operation_id;
  event_id = event_id;
  item_revision = e.item_revision;
  event_index = index;
  event_type = e.event_type;
  before = e.before;
  after = e.after;
  actor = record {
    kind = c.actor.kind;
    id = c.actor.id;
    surface = c.actor.surface;
    host = c.actor.host;
  };
  execution = execution_of c.execution;
  reason = event_reason e.event_type c.reason;
  note = event_note e.after;
  occurred_at = c.occurred_at;
  schema_version = 1;
}

parse_history_event_type-event_type :
    (t : EventType) → parse_history_event_type (event_type t) ≡ ok t
unfolding parse_history_event_type event_type List-discrete ℕ_discrete
parse_history_event_type-event_type captured = refl
parse_history_event_type-event_type approved = refl
parse_history_event_type-event_type _ = refl

parse_history_status-status_text : (s : Status) → parse_history_status (status_text s) ≡ some s
unfolding parse_history_status status_text List-discrete ℕ_discrete
parse_history_status-status_text proposed = refl
parse_history_status-status_text ready = refl
parse_history_status-status_text _ = refl

parse_history_priority-priority_text :
    (p : Priority) → parse_history_priority (priority_text p) ≡ some p
unfolding parse_history_priority priority_text List-discrete ℕ_discrete
parse_history_priority-priority_text p0 = refl
parse_history_priority-priority_text _ = refl

priority_text-ne-null : (p : Priority) → (priority_text p == codes "null") ≡ false
unfolding priority_text List-discrete ℕ_discrete
priority_text-ne-null p0 = refl
priority_text-ne-null _ = refl

parse_assignee :
    (field : Text) (a : Option AssigneeId)
    → IsCanonicalAssignee a
    → (parse_typed_value assignee_changed field (event_value (M.assignee a)) ≡ ok (M.assignee a))
      ↔ IsNamed (some (M.assignee a))
unfolding parse_typed_value event_value List-discrete ℕ_discrete
parse_assignee field none h = (λ e. tt, λ n. refl)
parse_assignee field (some a) h = (
  λ e n. ground (arith, new_assignee_canonical a h),
  λ n. ground (arith, new_assignee_canonical a h),
)

parse_status :
    (field : Text) (s : Status) (t : EventType)
    → Fits t (M.status s)
    → parse_typed_value t field (event_value (M.status s)) ≡ ok (M.status s)
unfolding parse_typed_value event_value
parse_status field s captured h = absurd h
parse_status field s priority_changed h = absurd h
parse_status field s assignee_changed h = absurd h
parse_status field s note_added h = absurd h
parse_status field s _ h = rw (parse_history_status-status_text s) refl

parse_priority :
    (field : Text) (p : Option Priority)
    → parse_typed_value priority_changed field (event_value (M.priority p)) ≡ ok (M.priority p)
unfolding parse_typed_value event_value List-discrete ℕ_discrete
parse_priority field none = refl
parse_priority field (some p) =
    rw (priority_text-ne-null p, parse_history_priority-priority_text p) refl

-- one value is read back unless it is an assignee with the name that stands for none
parse_typed_value-event_value :
    (field : Text) (t : EventType) (v : EventValue)
    → Fits t v
    → (parse_typed_value t field (event_value v) ≡ ok v) ↔ IsNamed (some v)
parse_typed_value-event_value field t (M.status s) h = (λ e. tt, λ n. parse_status field s t h)
parse_typed_value-event_value field priority_changed (M.priority p) h =
    (λ e. tt, λ n. parse_priority field p)
parse_typed_value-event_value field assignee_changed (M.assignee a) h = parse_assignee field a h
parse_typed_value-event_value field note_added (M.note text) h =
    (λ e. tt, λ n. unfold parse_typed_value event_value in refl)
parse_typed_value-event_value field _ (M.priority p) h = absurd (ground arith)
parse_typed_value-event_value field _ (M.assignee a) h = absurd (ground arith)
parse_typed_value-event_value field _ (M.note text) h = absurd (ground arith)

parse_history_value-event_value :
    (field : Text) (t : EventType) (v : Option EventValue)
    → FitsAll t v
    → (parse_history_value t field (Option.map event_value v) ≡ ok v) ↔ IsNamed v
unfolding parse_history_value
parse_history_value-event_value field t none h = (λ e. tt, λ n. refl)
parse_history_value-event_value field t (some v) h =
    let (f, g) = parse_typed_value-event_value field t v h in
    (λ e. f (ground arith), λ n. rw (g n) refl)

kinds : (k : ActorKind) → parse_actor_kind (actor_kind k) ≡ ok k
unfolding List-discrete ℕ_discrete
kinds human = refl
kinds agent = refl

executions :
    (c : EventContext) (event_id : Text) (index : ℕ) (e : DomainEvent) (x : Execution)
    → c.execution ≡ x
    → IsIdentified x
    → parse_execution (history_row (event_entry c event_id index e)) ≡ ok (execution_of x)
unfolding history_row event_entry List-discrete ℕ_discrete
executions c event_id index e (A.direct surface host) h i = rw h refl
executions c event_id index e (A.agent_execution agent_id surface host) h i = rw (h, i) refl

revisions : (n : ℕ) → n ≢ 0 → n < 2 ^ 63 → parse_revision (as_i64 n) ≡ ok n
unfolding new_revision
revisions n h k = ground (arith, as_i64_of_lt n k)

-- The row that a mutation writes for an event reads back as that event, with who did it and how,
-- exactly if neither of its values is an assignee named `null`; the event's revision fits a column,
-- its values are of its type, and an agent that executed it has a name.
pub history_event-event_entry :
    (c : EventContext) (event_id : Text) (index : ℕ) (e : DomainEvent)
    → IsIdentified c.execution
    → IsWritable e
    → (history_event (history_row (event_entry c event_id index e))
        ≡ ok (recorded c event_id index e))
      ↔ (IsNamed e.before × IsNamed e.after)
unfolding history_event history_row event_entry
history_event-event_entry c event_id index e i w =
    let row = history_row (event_entry c event_id index e) in
    let kind = kinds c.actor.kind in
    let type = parse_history_event_type-event_type e.event_type in
    let revision = revisions e.item_revision w.revision w.revision_fits in
    let execution = executions c event_id index e c.execution refl i in
    let before =
      parse_history_value-event_value (codes "before_value") e.event_type e.before w.before in
    let after =
      parse_history_value-event_value (codes "after_value") e.event_type e.after w.after in
    (
      λ h. (before.0 (ground arith), after.0 (ground arith)),
      λ n. let b = before.1 n.0 in let a = after.1 n.1 in ground arith,
    )
