-- ===== src/Domain/Triage.antt =====
-- src/domain.rs: `Item::triage`.
use bif.Base.{
  Option, none, some, Bool, true, false, ◌&&◌, ◌||◌, not, ok, err, if◌then◌else◌, ◌==◌, option_eq,
}
use bif.Base.Text.{Text}
use bif.Domain.Identifier.{AssigneeId}
use bif.Domain.Item.{Status, done, rejected, Priority, priority_eq, assignee_eq, status_eq}
use bif.Domain.Lifecycle.{Method}

pub data TriageField {ℓ} (A : Type ℓ) : Type ℓ where
  omitted clear : TriageField A
  set : A → TriageField A

pub record Triage : Type 0 where
  pub priority : TriageField Priority
  pub assignee : TriageField AssigneeId
  pub note : Option Text

-- `before` and `after` of the components that changed
pub record TriageChanges : Type 0 where
  pub priority : Option (Option Priority × Option Priority)
  pub assignee : Option (Option AssigneeId × Option AssigneeId)
  pub note : Option Text

pub data TriageError : Type 0 where
  invalid_input invalid_transition : TriageError

abbrev pub is_some {ℓ} : {A : Type ℓ} → Option A → Bool
is_some none = false
is_some (some a) = true

abbrev pub is_omitted {ℓ} : {A : Type ℓ} → TriageField A → Bool
is_omitted omitted = true
is_omitted _ = false

-- the `match` that gives `next_priority` and `next_assignee`
abbrev pub next_value {ℓ} : {A : Type ℓ} → TriageField A → Option A → Option A
next_value omitted old = old
next_value clear old = none
next_value (set a) old = some a

abbrev pub priority_change :
    Option Priority → Option Priority → Option (Option Priority × Option Priority)
priority_change old next = if not (next == old) then some (old, next) else none

abbrev pub assignee_change :
    Option AssigneeId → Option AssigneeId → Option (Option AssigneeId × Option AssigneeId)
assignee_change old next = if not (next == old) then some (old, next) else none

abbrev pub is_terminal : Status → Bool
is_terminal done = true
is_terminal rejected = true
is_terminal _ = false

unfoldable pub triage : Triage → Method TriageChanges TriageError
triage t item =
    let next_priority = next_value t.priority item.priority in
    let next_assignee = next_value t.assignee item.assignee in
    let priority = priority_change item.priority next_priority in
    let assignee = assignee_change item.assignee next_assignee in
    if is_omitted t.priority && (is_omitted t.assignee && not (is_some t.note))
    then (item, err invalid_input)
    else if is_terminal item.status && (is_some priority || is_some assignee)
    then (item, err invalid_transition)
    else (
      record item { priority = next_priority; assignee = next_assignee },
      ok (record { priority = priority; assignee = assignee; note = t.note }),
    )
