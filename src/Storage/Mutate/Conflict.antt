-- ===== src/Storage/Mutate/Conflict.antt =====
-- Two requests that have read the same revision of an item.
use bif.Base.{
  ◌+◌, ◌≡◌, ◌≢◌, inl, inr, sym, ap, ◌∙◌, true, false, List, [], Option, none, some, ok, err, arith,
  All, ◌⊎◌, nat_eq, list_eq, subst,
}
use bif.Domain.Item.{Item, set_updated_at}
use bif.Domain.Item.Display.{display}
use bif.Domain.Mutation.{DomainEvent, apply_mutation, max_u64}
use bif.Domain.Mutation.Laws.{apply_mutation-revision, apply_mutation-Evolves}
use bif.Application.Request.{MutationResult, version_conflict}
use bif.Storage.Codec.{SqliteError}
use bif.Storage.Codec.RoundTrip.{IsStorable}
use bif.Storage.Db.{Db, find_receipt}
use bif.Storage.Session.{ReadStoreState, read_store_state, check_write_state}
use bif.Storage.Journal.Coverage.{IsCovered}
use bif.Storage.Mutate.{Statement, read_state, Call, load_item, apply_request, body, mutate}
use bif.Storage.Mutate.Answers.{Answers, mutate-ok, left}
use bif.Storage.Mutate.Retry.{check_write_state-none}
use bif.Storage.Mutate.Stored.{
  IsStored, no_fault, load_item-IsStored, load_item-same, committed-IsStored,
}

-- a request that expects another revision than the stored one
mutate_other_revision :
    (pinned : ReadStoreState) (call : Call) (db : Db) (item : Item)
    → check_write_state none pinned db ≡ ok true
    → find_receipt call.request.idempotency_key db ≡ none
    → load_item no_fault (display call.request.item_id) db ≡ ok (some item)
    → item.revision ≢ call.request.expected_revision
    → mutate no_fault pinned call db ≡ (db, err version_conflict)
unfolding mutate body apply_request
mutate_other_revision pinned call db item checked fresh loaded other = ground arith

-- In a store with a covered journal, where the item of the request is stored and as the constructors
-- accept it: an answer that goes with a changed store leaves the answered item stored, under the same
-- identity and at the revision behind the expected one, which was that of the item.
pub mutate-IsStored :
    (fault : Statement → Option SqliteError) (pinned : ReadStoreState) (call : Call) (db after : Db)
    (item : Item) (result : MutationResult)
    → IsCovered db
    → IsStored db item
    → item.id ≡ call.request.item_id
    → IsStorable item
    → mutate fault pinned call db ≡ (after, ok result)
    → after ≢ db
    → IsStored after result.item
      × (result.item.id ≡ item.id)
      × (item.revision ≡ call.request.expected_revision)
      × (result.item.revision ≡ call.request.expected_revision + 1)
unfolding set_updated_at
mutate-IsStored fault pinned call db after item result c stored own fits h changed =
    let (_, (next, to, answers)) = mutate-ok fault pinned call db after result c h in
    by_answer next to answers
  where
    id_kept :
        (planned : Item) (result : MutationResult)
        → result ≡ record { item = set_updated_at call.occurred_at planned; replayed = false }
        → planned.id ≡ item.id
        → result.item.id ≡ item.id
    id_kept planned result answer kept = ground arith

    current :
        (item' : Item)
        → item' ≡ item
        → item'.revision ≡ call.request.expected_revision
        → item.revision ≡ call.request.expected_revision
    current item' same at = ground arith

    next_number :
        (planned : Item) (result : MutationResult) {events : List DomainEvent}
        → result ≡ record { item = set_updated_at call.occurred_at planned; replayed = false }
        → (events ≡ []) × (planned ≡ item)
          ⊎ (events ≢ [])
            × (planned.revision ≡ item.revision + 1)
            × (item.revision ≢ max_u64)
            × All (λ e. e.item_revision ≡ item.revision + 1) events
        → events ≢ []
        → item.revision ≡ call.request.expected_revision
        → result.item.revision ≡ call.request.expected_revision + 1
    next_number planned result answer (inl (none_made, _)) some_events at =
        absurd (some_events none_made)
    next_number planned result answer (inr (_, number, _, _)) some_events at = ground arith

    by_answer :
        (next : Option Db)
        → after ≡ left db next
        → Answers fault call db result next
        → IsStored after result.item
          × (result.item.id ≡ item.id)
          × (item.revision ≡ call.request.expected_revision)
          × (result.item.revision ≡ call.request.expected_revision + 1)
    by_answer next to (inl (_, kept)) = absurd (changed (to ∙ ap (left db) kept))
    by_answer next to (inr (inl (_, kept))) = absurd (changed (to ∙ ap (left db) kept))
    by_answer next to
          (inr (
            inr (
              planned,
              events,
              (item', fresh, loaded, at, applied),
              some_events,
              _,
              (i, _, answer, commits, _),
            ))) =
        let same = load_item-same fault call.request.item_id db item item' stored fits own loaded in
        let applied_here = ap (apply_mutation call.request.mutation) (sym same) ∙ applied in
        let settled = to ∙ ap (left db) commits in
        let kept =
          (apply_mutation-Evolves call.request.mutation item planned events applied_here).same in
        let numbered =
          apply_mutation-revision call.request.mutation item planned events applied_here in
        let now =
          committed-IsStored call item planned events (db.metadata.high_water + 1)
            i.columns.project_id db stored applied_here in
        (
          subst (IsStored after) (sym (ap (λ (r : MutationResult). r.item) answer))
              (subst (λ d. IsStored d (set_updated_at call.occurred_at planned)) (sym settled) now),
          id_kept planned result answer kept.id,
          current item' same at,
          next_number planned result answer numbered some_events (current item' same at),
        )

-- a mutation that is answered leaves a store of the same pinned state
mutate-pinned :
    (fault : Statement → Option SqliteError) (pinned : ReadStoreState) (call : Call) (db after : Db)
    (result : MutationResult)
    → IsCovered db
    → mutate fault pinned call db ≡ (after, ok result)
    → check_write_state none pinned after ≡ ok true
unfolding check_write_state read_store_state
mutate-pinned fault pinned call db after result c h =
    let (checked, (next, to, answers)) = mutate-ok fault pinned call db after result c h in
    by_answer next to (check_write_state-none (fault read_state) pinned db checked) answers
  where
    by_answer :
        (next : Option Db)
        → after ≡ left db next
        → check_write_state none pinned db ≡ ok true
        → Answers fault call db result next
        → check_write_state none pinned after ≡ ok true
    by_answer next to checked (inl (_, kept)) =
        subst (λ d. check_write_state none pinned d ≡ ok true) (sym (to ∙ ap (left db) kept))
          checked
    by_answer next to checked (inr (inl (_, kept))) =
        subst (λ d. check_write_state none pinned d ≡ ok true) (sym (to ∙ ap (left db) kept))
          checked
    by_answer next to checked (inr (inr (planned, events, _, _, _, (i, _, answer, commits, _)))) =
        subst (λ d. check_write_state none pinned d ≡ ok true) (sym (to ∙ ap (left db) commits))
          checked

-- In a store with a covered journal, where the item is stored and the constructors accept it before
-- and after: of two requests that expect the same revision of it, when the first has changed the
-- store, nothing came between and the engine does not fail, the second is refused with a version
-- conflict, unless its key is known, and changes nothing.
pub mutate_stale :
    (fault : Statement → Option SqliteError) (pinned : ReadStoreState) (call other : Call)
    (db after : Db) (item : Item) (result : MutationResult)
    → IsCovered db
    → IsStored db item
    → item.id ≡ call.request.item_id
    → IsStorable item
    → IsStorable result.item
    → mutate fault pinned call db ≡ (after, ok result)
    → after ≢ db
    → other.request.item_id ≡ call.request.item_id
    → other.request.expected_revision ≡ call.request.expected_revision
    → find_receipt other.request.idempotency_key after ≡ none
    → mutate no_fault pinned other after ≡ (after, err version_conflict)
mutate_stale fault pinned call other db after item result c stored own fits fits' h changed
      same_item same_revision fresh =
    let (kept, id, _, number) =
      mutate-IsStored fault pinned call db after item result c stored own fits h changed in
    mutate_other_revision pinned other after result.item
      (mutate-pinned fault pinned call db after result c h) fresh
      (subst (λ k. load_item no_fault (display k) after ≡ ok (some result.item))
        (id ∙ own ∙ sym same_item) (load_item-IsStored after result.item kept fits'))
      (λ e. ground arith)
