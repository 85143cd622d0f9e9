-- ===== src/Domain/Mutation/Plan.antt =====
-- What `apply_mutation` does to an item and which events it returns.
use bif.Base.{
  ◌+◌, ◌≡◌, refl, inl, inr, Option, none, some, List, [], ◌∷◌, ◌++◌, map, Result, ok, err,
  if◌then◌else◌, ◌==◌, arith, >>=-eq-ok, Option-cases,
}
use bif.Base.Text.{Text}
use bif.Domain.Item.{Item, Revision, status_eq, priority_eq, assignee_eq}
use bif.Domain.Triage.{Triage, TriageChanges, TriageError, triage}
use bif.Domain.Mutation.{
  LifecycleMutation, approve_item, ItemMutation, EventValue, status, priority, assignee, note,
  DomainEvent, MutationError, Change, triage_changes, plan_lifecycle, plan_triage, plan,
  apply_mutation, commit, event_at,
}
use bif.Base.{option_eq}

-- What one change records, checked against the item that it is about: `none` if the value before
-- the change is not that of the item.
unfoldable pub replay_values : Option EventValue → Option EventValue → Item → Option Item
replay_values (some (status b)) (some (status a)) item =
    if b == item.status then some (record item { status = a }) else none
replay_values (some (priority b)) (some (priority a)) item =
    if b == item.priority then some (record item { priority = a }) else none
replay_values (some (assignee b)) (some (assignee a)) item =
    if b == item.assignee then some (record item { assignee = a }) else none
replay_values none (some (note t)) item = some item
replay_values _ _ item = none

unfoldable pub replay_changes : List Change → Item → Option Item
replay_changes [] item = some item
replay_changes (c ∷ cs) item = elim (replay_values c.before c.after item) [
  | none ↦ none
  | some next ↦ replay_changes cs next
]

-- An event also carries the revision of the item after the whole mutation.
unfoldable pub replay : List DomainEvent → Item → Option Item
replay [] item = some item
replay (e ∷ es) item = elim (replay_values e.before e.after item) [
  | none ↦ none
  | some next ↦ replay es (record next { revision = e.item_revision })
]

-- The item with a given reason: no event value records the reason, so a replay is up to it.
abbrev pub with_status_reason : Option Text → Item → Item
with_status_reason r item = record item { status_reason = r }

replay_changes-append :
    (cs ds : List Change) (item next : Item)
    → replay_changes cs item ≡ some next
    → replay_changes (cs ++ ds) item ≡ replay_changes ds next
unfolding replay_changes
replay_changes-append [] ds item next h = ground arith
replay_changes-append (c ∷ cs) ds item next h =
    elim (Option-cases (replay_values c.before c.after item)) [
      | inl e ↦ ground arith
      | inr (mid, e) ↦ ground (arith, replay_changes-append cs ds mid next)
    ]

module _ (r : Option Text) where
  plan_lifecycle-replay :
      (m : Option LifecycleMutation) (item planned : Item) (cs : List Change)
      → plan_lifecycle m item ≡ ok (planned, cs)
      → replay_changes cs (with_status_reason r item) ≡ some (with_status_reason r planned)
  unfolding plan_lifecycle replay_changes replay_values
  plan_lifecycle-replay none item planned cs h = ground arith
  plan_lifecycle-replay (some approve_item) item planned cs h = ground arith
  plan_lifecycle-replay (some _) item planned cs h = ground arith

  triage-replay :
      (t : Triage) (item next : Item) (c : TriageChanges)
      → triage t item ≡ (next, ok c)
      → replay_changes (triage_changes c) (with_status_reason r item)
        ≡ some (with_status_reason r next)
  unfolding triage replay_changes replay_values
  triage-replay t item next c h = ground arith

  plan_triage-replay :
      (t : Option Triage) (item mid planned : Item) (cs ds : List Change)
      → replay_changes cs item ≡ some (with_status_reason r mid)
      → plan_triage t mid cs ≡ ok (planned, ds)
      → replay_changes ds item ≡ some (with_status_reason r planned)
  unfolding plan_triage
  plan_triage-replay none item mid planned cs ds e h = ground arith
  plan_triage-replay (some t) item mid planned cs ds e h = outcome (triage t mid) refl
    where
      outcome :
          (o : Item × Result TriageChanges TriageError)
          → triage t mid ≡ o
          → replay_changes ds item ≡ some (with_status_reason r planned)
      outcome (next, ok c) e' = ground (
        arith,
        triage-replay t mid next c e',
        replay_changes-append cs (triage_changes c) item (with_status_reason r mid) e,
      )
      outcome (next, err x) e' = ground arith

  plan-replay :
      (m : ItemMutation) (item planned : Item) (cs : List Change)
      → plan m item ≡ ok (planned, cs)
      → replay_changes cs (with_status_reason r item) ≡ some (with_status_reason r planned)
  unfolding plan
  plan-replay m item planned cs h =
      let ((mid, ds), first, second) =
        >>=-eq-ok (plan_lifecycle m.lifecycle item) (λ (mid, ds). plan_triage m.triage mid ds) h in
      plan_triage-replay m.triage (with_status_reason r item) mid planned ds cs
        (plan_lifecycle-replay m.lifecycle item mid ds first) second

module _ (v : Revision) where
  replay_values-revision :
      (before after : Option EventValue) (item next : Item)
      → replay_values before after item ≡ some next
      → replay_values before after (record item { revision = v })
        ≡ some (record next { revision = v })
  unfolding replay_values
  replay_values-revision before after item next h = ground arith

  -- the events at a revision replay as the changes do
  replay-event_at :
      (cs : List Change) (item planned : Item)
      → replay_changes cs item ≡ some planned
      → replay (map (event_at v) cs) (record item { revision = v })
        ≡ some (record planned { revision = v })
  unfolding replay_changes replay
  replay-event_at [] item planned h = ground arith
  replay-event_at (c ∷ cs) item planned h =
      elim (Option-cases (replay_values c.before c.after item)) [
        | inl e ↦ ground arith
        | inr (next, e) ↦ ground (
          arith,
          replay_values-revision c.before c.after item next e,
          replay-event_at cs next planned,
        )
      ]

  replay-event_at_cons :
      (c : Change) (cs : List Change) (item planned : Item)
      → replay_changes (c ∷ cs) item ≡ some planned
      → replay (map (event_at v) (c ∷ cs)) item ≡ some (record planned { revision = v })
  unfolding replay_changes replay
  replay-event_at_cons c cs item planned h =
      elim (Option-cases (replay_values c.before c.after item)) [
        | inl e ↦ ground arith
        | inr (next, e) ↦ ground (arith, replay-event_at cs next planned)
      ]

-- How a call of `apply_mutation` that succeeds has gone.
pub apply_mutation-plan :
    (m : ItemMutation) (item next : Item) (events : List DomainEvent)
    → apply_mutation m item ≡ (next, ok events)
    → (planned : Item) × (cs : List Change) × (plan m item ≡ ok (planned, cs))
      × (commit item planned cs ≡ ok (next, events))
unfolding apply_mutation
apply_mutation-plan m item next events h = by_plan (plan m item) refl
  where
    by_plan :
        (o : Result (Item × List Change) MutationError)
        → plan m item ≡ o
        → (planned : Item) × (cs : List Change) × (plan m item ≡ ok (planned, cs))
          × (commit item planned cs ≡ ok (next, events))
    by_plan (ok (planned, cs)) e = (planned, cs, e, ground arith)
    by_plan (err x) e = absurd (ground arith)

commit-replay :
    (r : Option Text) (item planned next : Item) (cs : List Change) (events : List DomainEvent)
    → replay_changes cs (with_status_reason r item) ≡ some (with_status_reason r planned)
    → commit item planned cs ≡ ok (next, events)
    → replay events (with_status_reason r item) ≡ some (with_status_reason r next)
unfolding commit
commit-replay r item planned next [] events e h = unfold replay in ground arith
commit-replay r item planned next (c ∷ cs) events e h = ground (
  arith,
  replay-event_at_cons (item.revision + 1) c cs (with_status_reason r item)
      (with_status_reason r planned) e,
)

-- The events that a successful mutation returns are a faithful record of it: each has the value
-- that the item had before, and applied in order to the old item they give the new item, at its
-- new revision. The reason of the status is left out on both sides.
pub apply_mutation-replay :
    (r : Option Text) (m : ItemMutation) (item next : Item) (events : List DomainEvent)
    → apply_mutation m item ≡ (next, ok events)
    → replay events (with_status_reason r item) ≡ some (with_status_reason r next)
apply_mutation-replay r m item next events h =
    let (planned, cs, p, c) = apply_mutation-plan m item next events h in
    commit-replay r item planned next cs events (plan-replay r m item planned cs p) c
