-- ===== src/Domain/Mutation/Runs.antt =====
-- Sequences of mutations on one item: each is applied to what the one before it left, and one that
-- fails is passed over.
use bif.Base.{
  ◌≡◌, refl, sym, subst, ap, ◌∙◌, ◌⊎◌, inl, inr, Option, some, List, [], ◌∷◌, ◌++◌, true, Result,
  ok, err, arith, Option-cases,
}
use bif.Base.Text.{Text}
use bif.Domain.Item.{Item, Status}
use bif.Domain.Lifecycle.Graph.{
  ◌⟶◌, ◌⟶*◌, here, next, approves, rejects, starts, blocks, resumes, finishes, ⟶*-trans,
}
use bif.Domain.Triage.{is_terminal}
use bif.Domain.Mutation.{ItemMutation, DomainEvent, MutationError, apply_mutation}
use bif.Domain.Mutation.Plan.{replay, replay_values, with_status_reason, apply_mutation-replay}
use bif.Domain.Mutation.Laws.{Evolves, apply_mutation-Evolves, apply_mutation_error_unchanged}

abbrev pub Outcome : Type 0
Outcome = Item × Result (List DomainEvent) MutationError

abbrev pub events_of : Outcome → List DomainEvent
events_of (item, ok events) = events
events_of (item, err e) = []

-- the item at the end, and all the events in their order
unfoldable pub run : List ItemMutation → Item → Item × List DomainEvent
run [] item = (item, [])
run (m ∷ ms) item =
    let o = apply_mutation m item in let (final, rest) = run ms o.0 in (final, events_of o ++ rest)

unchanged :
    (m : ItemMutation) (item to : Item) (x : MutationError)
    → apply_mutation m item ≡ (to, err x)
    → to ≡ item
unchanged m item to x e =
    ap (λ (o : Outcome). o.0) (sym e)
    ∙ apply_mutation_error_unchanged m item (ap (λ (o : Outcome). o.1) e)

-- one step, failed or not
step-replay :
    (r : Option Text) (m : ItemMutation) (item : Item)
    → replay (events_of (apply_mutation m item)) (with_status_reason r item)
      ≡ some (with_status_reason r (apply_mutation m item).0)
step-replay r m item = by_result (apply_mutation m item) refl
  where
    by_result :
        (o : Outcome)
        → apply_mutation m item ≡ o
        → replay (events_of o) (with_status_reason r item) ≡ some (with_status_reason r o.0)
    by_result (to, ok events) e = apply_mutation-replay r m item to events e
    by_result (to, err x) e =
        let same = unchanged m item to x e in
        unfold replay in ap (λ i. some (with_status_reason r i)) (sym same)

replay-append :
    (es fs : List DomainEvent) (item mid : Item)
    → replay es item ≡ some mid
    → replay (es ++ fs) item ≡ replay fs mid
unfolding replay
replay-append [] fs item mid h = ground arith
replay-append (x ∷ es) fs item mid h = elim (Option-cases (replay_values x.before x.after item)) [
  | inl e ↦ ground arith
  | inr (to, e) ↦ ground (arith, replay-append es fs (record to { revision = x.item_revision }) mid)
]

-- The events of any sequence of mutations rebuild the item, up to the reason of its status.
pub run-replay :
    (r : Option Text) (ms : List ItemMutation) (item : Item)
    → replay (run ms item).1 (with_status_reason r item)
      ≡ some (with_status_reason r (run ms item).0)
unfolding run
run-replay r [] item = unfold replay in refl
run-replay r (m ∷ ms) item =
    replay-append (events_of (apply_mutation m item)) (run ms (apply_mutation m item).0).1 _ _
      (step-replay r m item)
    ∙ run-replay r ms (apply_mutation m item).0

step-status : (m : ItemMutation) (item : Item) → Evolves item (apply_mutation m item).0
step-status m item = by_result (apply_mutation m item) refl
  where
    by_result : (o : Outcome) → apply_mutation m item ≡ o → Evolves item o.0
    by_result (to, ok events) e = apply_mutation-Evolves m item to events e
    by_result (to, err x) e =
        let same = unchanged m item to x e in
        record { same = ground arith; status = inl (ground arith); frozen = λ t. ground arith }

-- From any item, a sequence of mutations takes the status along edges of the lifecycle only.
pub run-⟶* : (ms : List ItemMutation) (item : Item) → item.status ⟶* (run ms item).0.status
unfolding run
run-⟶* [] item = here
run-⟶* (m ∷ ms) item = by_step (step-status m item).status (run-⟶* ms (apply_mutation m item).0)
  where
    mid : Status
    mid = (apply_mutation m item).0.status

    by_step : {t : Status} → (mid ≡ item.status) ⊎ (item.status ⟶ mid) → mid ⟶* t → item.status ⟶* t
    by_step {t} (inl same) path = subst (λ s. s ⟶* t) same path
    by_step (inr edge) path = ⟶*-trans (next here edge) path

-- no edge leaves a terminal status
terminal_stays : {s t : Status} → s ⟶ t → is_terminal s ≡ true → ⊥
terminal_stays approves h = cc
terminal_stays rejects h = cc
terminal_stays starts h = cc
terminal_stays blocks h = cc
terminal_stays resumes h = cc
terminal_stays finishes h = cc

-- Once an item is done or rejected, no sequence of mutations changes its status, priority or
-- assignee again.
pub run_terminal :
    (ms : List ItemMutation) (item : Item)
    → is_terminal item.status ≡ true
    → let final = (run ms item).0 in
      (final.status ≡ item.status)
      × (final.priority ≡ item.priority)
      × (final.assignee ≡ item.assignee)
unfolding run
run_terminal [] item h = (refl, refl, refl)
run_terminal (m ∷ ms) item h =
    let step = step-status m item in
    let mid = (apply_mutation m item).0 in
    let same : mid.status ≡ item.status = elim step.status [
      | inl e ↦ e
      | inr edge ↦ absurd (terminal_stays edge h)
    ] in
    let t : is_terminal mid.status ≡ true = rw same h in
    let (p, a) = step.frozen t in
    let (s', p', a') = run_terminal ms mid t in (s' ∙ same, p' ∙ p, a' ∙ a)
