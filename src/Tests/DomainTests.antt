-- ===== src/Tests/DomainTests.antt =====
-- src/domain.rs: the theorems on one item, and what the functions return for it.
use bif.Base.{
  ℕ_discrete, Option-discrete, ◌+◌, ◌≡◌, ◌≢◌, ◌↔◌, refl, ◌⊎◌, List, [], ◌∷◌, none, some, ok, err,
  All,
}
use bif.Base.Text.{codes, to_lower, to_upper}
use bif.Samples.{item, start_and_note, block, finish}
use bif.Domain.Identifier.{lower, normalize_identifier, normalize_loop, fold_case, new_requester}
use bif.Domain.Identifier.Canonical.{IsCanonical, normalize_identifier_fixed}
use bif.Domain.Item.{Item, in_progress, ready, p1, Status-discrete, Priority-discrete}
use bif.Domain.Lifecycle.{start, transition}
use bif.Domain.Lifecycle as L
use bif.Domain.Triage.{triage}
use bif.Domain.Mutation as M
use bif.Domain.Mutation.{
  apply_mutation, DomainEvent, max_u64, plan, EventValue, status, priority, note,
  from_lifecycle_error, plan_lifecycle, plan_triage, commit, run_lifecycle, MutationError,
  invalid_transition,
}
use bif.Domain.Mutation.Plan.{replay, with_status_reason, apply_mutation-replay}
use bif.Domain.Mutation.Laws.{apply_mutation-revision, apply_mutation-Evolves, Evolves}
use bif.Domain.Mutation.Runs.{run, run-replay}

abbrev started : Item
started = record item { status = in_progress; priority = none; revision = 3 }

abbrev started_events : List DomainEvent
started_events =
    record {
      event_type = M.started;
      item_revision = 3;
      before = some (status ready);
      after = some (status in_progress);
    }
    ∷ record {
      event_type = M.priority_changed;
      item_revision = 3;
      before = some (priority (some p1));
      after = some (priority none);
    }
    ∷ record {
      event_type = M.note_added;
      item_revision = 3;
      before = none;
      after = some (note (codes "begun"));
    }
    ∷ []

starts : apply_mutation start_and_note item ≡ (started, ok started_events)
unfolding apply_mutation plan commit plan_lifecycle plan_triage run_lifecycle start transition
    triage Status-discrete Priority-discrete ℕ_discrete Option-discrete
starts = refl

-- finishing needs work in progress
finish_refused : apply_mutation finish item ≡ (item, err invalid_transition)
unfolding apply_mutation plan commit plan_lifecycle plan_triage run_lifecycle from_lifecycle_error
    L.finish transition Status-discrete
finish_refused = refl

apply_mutation-replay_example :
    replay started_events (with_status_reason none item) ≡ some (with_status_reason none started)
apply_mutation-replay_example =
    apply_mutation-replay none start_and_note item started started_events starts

apply_mutation-revision_example :
    (started_events ≡ []) × (started ≡ item)
    ⊎ (started_events ≢ [])
      × (started.revision ≡ item.revision + 1)
      × (item.revision ≢ max_u64)
      × All (λ e. e.item_revision ≡ item.revision + 1) started_events
apply_mutation-revision_example =
    apply_mutation-revision start_and_note item started started_events starts

apply_mutation-Evolves_example : Evolves item started
apply_mutation-Evolves_example =
    apply_mutation-Evolves start_and_note item started started_events starts

run-replay_example :
    let (final, events) = run (start_and_note ∷ block ∷ finish ∷ []) item in
    replay events (with_status_reason none item) ≡ some (with_status_reason none final)
run-replay_example = run-replay none (start_and_note ∷ block ∷ finish ∷ []) item

normalizes : normalize_identifier (codes " Ada--B. ") lower ≡ ok (codes "ada-b")
unfolding normalize_identifier normalize_loop fold_case to_lower ℕ_discrete
normalizes = refl

normalize_identifier_fixed_example :
    (IsCanonical lower (codes "ada-b"))
    ↔ (normalize_identifier (codes "ada-b") lower ≡ ok (codes "ada-b"))
normalize_identifier_fixed_example = normalize_identifier_fixed (codes "ada-b") lower

requester : new_requester (codes "ada b") ≡ ok (record { as_str = codes "ADA-B" })
unfolding new_requester normalize_identifier normalize_loop fold_case to_upper ℕ_discrete
requester = refl
