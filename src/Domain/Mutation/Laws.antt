-- ===== src/Domain/Mutation/Laws.antt =====
-- The revision, the frame and the lifecycle of `apply_mutation`.
use bif.Base.{
  ◌+◌, ◌≡◌, ◌≢◌, refl, sym, subst, ◌⊎◌, inl, inr, Option, none, some, List, [], ◌∷◌, map, true, ok,
  err, All, arith, >>=-eq-ok,
}
use bif.Domain.Item.{Item, Revision}
use bif.Domain.Lifecycle.Graph.{◌⟶◌, edges}
use bif.Domain.Triage.{Triage, triage, is_terminal}
use bif.Domain.Mutation.{
  LifecycleMutation, approve_item, ItemMutation, DomainEvent, MutationError, Change, plan_lifecycle,
  plan_triage, plan, apply_mutation, commit, event_at, max_u64,
}
use bif.Domain.Mutation.Plan.{apply_mutation-plan}

-- A mutation that returns an error leaves the item as it was, whichever component failed.
pub apply_mutation_error_unchanged :
    (m : ItemMutation) (item : Item) {e : MutationError}
    → (apply_mutation m item).1 ≡ err e
    → (apply_mutation m item).0 ≡ item
unfolding apply_mutation
apply_mutation_error_unchanged m item h = ground arith

-- what no mutation touches
pub record SameRecord (a b : Item) : Type 0 where
  pub id : a.id ≡ b.id
  pub content : a.content ≡ b.content
  pub captured_at : a.captured_at ≡ b.captured_at
  pub updated_at : a.updated_at ≡ b.updated_at
  pub provenance : a.provenance ≡ b.provenance

-- the planned copy differs in no more than status, reason, priority and assignee
plan_lifecycle-frame :
    (m : Option LifecycleMutation) (item planned : Item) (cs : List Change)
    → plan_lifecycle m item ≡ ok (planned, cs)
    → SameRecord planned item
      × (planned.revision ≡ item.revision)
      × (planned.priority ≡ item.priority)
      × (planned.assignee ≡ item.assignee)
unfolding plan_lifecycle
plan_lifecycle-frame none item planned cs h = ground arith
plan_lifecycle-frame (some approve_item) item planned cs h = ground arith
plan_lifecycle-frame (some _) item planned cs h = ground arith

plan_lifecycle-⟶ :
    (m : Option LifecycleMutation) (item planned : Item) (cs : List Change)
    → plan_lifecycle m item ≡ ok (planned, cs)
    → ((cs ≡ []) × (planned ≡ item)) ⊎ (item.status ⟶ planned.status)
unfolding plan_lifecycle
plan_lifecycle-⟶ none item planned cs h = inl (ground arith)
plan_lifecycle-⟶ (some approve_item) item planned cs h = inr (grind (arith, edges))
plan_lifecycle-⟶ (some _) item planned cs h = inr (grind (arith, edges))

plan_triage-frame :
    (t : Option Triage) (item planned : Item) (cs ds : List Change)
    → plan_triage t item cs ≡ ok (planned, ds)
    → SameRecord planned item
      × (planned.revision ≡ item.revision)
      × (planned.status ≡ item.status)
      × (planned.status_reason ≡ item.status_reason)
unfolding plan_triage triage
plan_triage-frame none item planned cs ds h = ground arith
plan_triage-frame (some t) item planned cs ds h = ground arith

plan_triage_terminal :
    (t : Option Triage) (item planned : Item) (cs ds : List Change)
    → is_terminal item.status ≡ true
    → plan_triage t item cs ≡ ok (planned, ds)
    → (planned.priority ≡ item.priority) × (planned.assignee ≡ item.assignee)
unfolding plan_triage triage
plan_triage_terminal none item planned cs ds e h = ground arith
plan_triage_terminal (some t) item planned cs ds e h = ground arith

plan-laws :
    (m : ItemMutation) (item planned : Item) (cs : List Change)
    → plan m item ≡ ok (planned, cs)
    → SameRecord planned item
      × (planned.revision ≡ item.revision)
      × ((planned.status ≡ item.status) ⊎ (item.status ⟶ planned.status))
      × (is_terminal planned.status ≡ true
          → (planned.priority ≡ item.priority) × (planned.assignee ≡ item.assignee))
unfolding plan
plan-laws m item planned cs h =
    let ((mid, ds), first, second) =
      >>=-eq-ok (plan_lifecycle m.lifecycle item) (λ (mid, ds). plan_triage m.triage mid ds) h in
    let a = plan_lifecycle-frame m.lifecycle item mid ds first in
    let b = plan_triage-frame m.triage mid planned ds cs second in
    let e = plan_lifecycle-⟶ m.lifecycle item mid ds first in
    (
      ground arith,
      ground arith,
      elim e [
        | inl (_, same) ↦ inl (ground arith)
        | inr edge ↦ inr (subst (λ s. item.status ⟶ s) (sym b.2) edge)
      ],
      λ t.
          let c = plan_triage_terminal m.triage mid planned ds cs (ground arith) second in
          ground arith,
    )

all_at :
    (r : Revision) (cs : List Change)
    → All (λ (e : DomainEvent). e.item_revision ≡ r) (map (event_at r) cs)
all_at r [] = tt
all_at r (c ∷ cs) = (refl, all_at r cs)

pub commit-cons :
    (item planned next : Item) (c : Change) (cs : List Change) (events : List DomainEvent)
    → commit item planned (c ∷ cs) ≡ ok (next, events)
    → (item.revision ≢ max_u64)
      × (next ≡ record planned { revision = item.revision + 1 })
      × (events ≡ map (event_at (item.revision + 1)) (c ∷ cs))
unfolding commit
commit-cons item planned next c cs events h = ground arith

pub commit-nil :
    (item planned next : Item) (events : List DomainEvent)
    → commit item planned [] ≡ ok (next, events)
    → (events ≡ []) × (next ≡ item)
unfolding commit
commit-nil item planned next events h = ground arith

-- A successful mutation with no event leaves the item as it was; one with events moves the
-- revision to the next one, which fits 64 bits, and every event carries it.
pub apply_mutation-revision :
    (m : ItemMutation) (item next : Item) (events : List DomainEvent)
    → apply_mutation m item ≡ (next, ok events)
    → (events ≡ []) × (next ≡ item)
      ⊎ (events ≢ [])
        × (next.revision ≡ item.revision + 1)
        × (item.revision ≢ max_u64)
        × All (λ e. e.item_revision ≡ item.revision + 1) events
apply_mutation-revision m item next events h =
    let (planned, cs, p, c) = apply_mutation-plan m item next events h in by_changes planned cs c
  where
    by_changes :
        (planned : Item) (cs : List Change)
        → commit item planned cs ≡ ok (next, events)
        → (events ≡ []) × (next ≡ item)
          ⊎ (events ≢ [])
            × (next.revision ≡ item.revision + 1)
            × (item.revision ≢ max_u64)
            × All (λ e. e.item_revision ≡ item.revision + 1) events
    by_changes planned [] c = inl (commit-nil item planned next events c)
    by_changes planned (d ∷ cs) c =
        let (fits, to, evs) = commit-cons item planned next d cs events c in
        inr (
          ground arith,
          ground arith,
          fits,
          subst (All (λ e. e.item_revision ≡ item.revision + 1)) (sym evs)
              (all_at (item.revision + 1) (d ∷ cs)),
        )

-- what a caller may rely on after one mutation that succeeds
pub record Evolves (item next : Item) : Type 0 where
  pub same : SameRecord next item
  pub status : (next.status ≡ item.status) ⊎ (item.status ⟶ next.status)
  pub frozen :
      is_terminal next.status ≡ true
      → (next.priority ≡ item.priority) × (next.assignee ≡ item.assignee)

-- A successful mutation keeps the identity, content, timestamps and provenance, takes the status
-- along at most one edge of the lifecycle, and where it ends in a terminal status it changes
-- neither the priority nor the assignee.
pub apply_mutation-Evolves :
    (m : ItemMutation) (item next : Item) (events : List DomainEvent)
    → apply_mutation m item ≡ (next, ok events)
    → Evolves item next
apply_mutation-Evolves m item next events h =
    let (planned, cs, p, c) = apply_mutation-plan m item next events h in
    by_changes planned cs c (plan-laws m item planned cs p)
  where
    by_changes :
        (planned : Item) (cs : List Change)
        → commit item planned cs ≡ ok (next, events)
        → SameRecord planned item
          × (planned.revision ≡ item.revision)
          × ((planned.status ≡ item.status) ⊎ (item.status ⟶ planned.status))
          × (is_terminal planned.status ≡ true
              → (planned.priority ≡ item.priority) × (planned.assignee ≡ item.assignee))
        → Evolves item next
    by_changes planned [] c laws =
        let (_, e) = commit-nil item planned next events c in
        record { same = ground arith; status = inl (ground arith); frozen = λ t. ground arith }
    by_changes planned (d ∷ cs) c (same, _, status, frozen) =
        let (_, to, _) = commit-cons item planned next d cs events c in
        subst (Evolves item) (sym to) (record {
          same = record {
            id = same.id;
            content = same.content;
            captured_at = same.captured_at;
            updated_at = same.updated_at;
            provenance = same.provenance;
          };
          status = status;
          frozen = frozen;
        })
