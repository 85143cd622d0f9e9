-- ===== src/Storage/Mutate/Answers.antt =====
-- The answers of `mutate`: what each tells of the store before and after.
use bif.Base.{
  ◌≡◌, ◌≢◌, ◌⊎◌, inl, inr, refl, true, false, List, [], ◌∷◌, Option, none, some, Result, ok, err,
  length, arith, list_eq, nat_eq,
}
use bif.Domain.Item.{Item, set_updated_at}
use bif.Domain.Item.Display.{display}
use bif.Domain.Mutation.{DomainEvent, MutationError, apply_mutation}
use bif.Application.Request.{MutationResult, MutationStoreError}
use bif.Storage.Codec.{SqliteError, ItemStorageError}
use bif.Storage.Db.{Db, ReceiptEntry, find_receipt}
use bif.Storage.Session.{ReadStoreState, check_write_state}
use bif.Storage.Journal.Coverage.{IsCovered}
use bif.Storage.Mutate.{
  Statement, read_state, Call, Outcome, load_item, answer_receipt, record_changes, apply_request,
  body, mutate,
}
use bif.Storage.Mutate.Commit.{write_changes-ok, Wrote}

-- the stored receipt of the key has the payload's hash, and the answer is the item as it is now
abbrev pub Replays : (Statement → Option SqliteError) → Call → Db → MutationResult → Type 0
Replays fault call db result =
    (receipt : ReceiptEntry) × (find_receipt call.request.idempotency_key db ≡ some receipt)
    × (receipt.payload_hash ≡ call.payload_hash)
    × (load_item fault receipt.item_id db ≡ ok (some result.item))
    × (result.replayed ≡ true)

-- the key is new, the item is at the expected revision, and the domain makes these events of it
abbrev pub Applies : (Statement → Option SqliteError) → Call → Db → Item → List DomainEvent → Type 0
Applies fault call db planned events =
    (item : Item) × (find_receipt call.request.idempotency_key db ≡ none)
    × (load_item fault (display call.request.item_id) db ≡ ok (some item))
    × (item.revision ≡ call.request.expected_revision)
    × (apply_mutation call.request.mutation item ≡ (planned, ok events))

abbrev pub Commits :
    (Statement → Option SqliteError) → Call → Db → MutationResult → Option Db → Type 0
Commits fault call db result next =
    (planned : Item) × (events : List DomainEvent) × Applies fault call db planned events
    × (events ≢ [])
    × (length call.identity.event_ids ≡ length events)
    × Wrote call (set_updated_at call.occurred_at planned) events db result next

abbrev pub KeepsItem : (Statement → Option SqliteError) → Call → Db → MutationResult → Type 0
KeepsItem fault call db result = Applies fault call db result.item [] × (result.replayed ≡ false)

-- the three ways in which a request is answered
abbrev pub Answers :
    (Statement → Option SqliteError) → Call → Db → MutationResult → Option Db → Type 0
Answers fault call db result next =
    (Replays fault call db result × (next ≡ none))
    ⊎ (KeepsItem fault call db result × (next ≡ none) ⊎ Commits fault call db result next)

answer_receipt-ok :
    (fault : Statement → Option SqliteError) (call : Call) (receipt : ReceiptEntry) (db : Db)
    (result : MutationResult) (next : Option Db)
    → find_receipt call.request.idempotency_key db ≡ some receipt
    → answer_receipt fault call.payload_hash receipt db ≡ ok (result, next)
    → Replays fault call db result × (next ≡ none)
unfolding answer_receipt
answer_receipt-ok fault call receipt db result next at h =
    ((receipt, at, ground arith, ground arith, ground arith), ground arith)

record_changes-ok :
    (fault : Statement → Option SqliteError) (call : Call) (planned : Item)
    (events : List DomainEvent) (db : Db) (result : MutationResult) (next : Option Db)
    → IsCovered db
    → record_changes fault call planned events db ≡ ok (result, next)
    → ((events ≡ []) × (result.item ≡ planned) × (result.replayed ≡ false) × (next ≡ none))
      ⊎ ((events ≢ [])
          × (length call.identity.event_ids ≡ length events)
          × Wrote call (set_updated_at call.occurred_at planned) events db result next)
unfolding record_changes
record_changes-ok fault call planned [] db result next c h =
    inl (refl, ground arith, ground arith, ground arith)
record_changes-ok fault call planned (e ∷ events) db result next c h = inr (
  λ z. cc,
  ground arith,
  write_changes-ok fault call planned (e ∷ events) db result next c (ground arith),
)

apply_request-ok :
    (fault : Statement → Option SqliteError) (call : Call) (db : Db) (result : MutationResult)
    (next : Option Db)
    → IsCovered db
    → find_receipt call.request.idempotency_key db ≡ none
    → apply_request fault call db ≡ ok (result, next)
    → (KeepsItem fault call db result × (next ≡ none)) ⊎ Commits fault call db result next
unfolding apply_request
apply_request-ok fault call db result next c fresh h =
    by_load (load_item fault (display call.request.item_id) db) refl
  where
    Goal : Type 0
    Goal = (KeepsItem fault call db result × (next ≡ none)) ⊎ Commits fault call db result next

    by_plan :
        (item planned : Item) (events : List DomainEvent)
        → load_item fault (display call.request.item_id) db ≡ ok (some item)
        → item.revision ≡ call.request.expected_revision
        → apply_mutation call.request.mutation item ≡ (planned, ok events)
        → record_changes fault call planned events db ≡ ok (result, next)
        → Goal
    by_plan item planned events loaded current applied done =
        elim (record_changes-ok fault call planned events db result next c done) [
          | inl (empty, same, fresh_answer, kept) ↦
              inl (((item, fresh, loaded, current, ground arith), fresh_answer), kept)
          | inr (some_events, enough, wrote) ↦
              inr (
                planned,
                events,
                (item, fresh, loaded, current, applied),
                some_events,
                enough,
                wrote,
              )
        ]

    by_load :
        (l : Result (Option Item) ItemStorageError)
        → load_item fault (display call.request.item_id) db ≡ l
        → Goal
    by_load (err e) l = absurd (ground arith)
    by_load (ok none) l = absurd (ground arith)
    by_load (ok (some item)) l = by_outcome item (apply_mutation call.request.mutation item) l refl
      where
        by_outcome :
            (item : Item) (a : Item × Result (List DomainEvent) MutationError)
            → load_item fault (display call.request.item_id) db ≡ ok (some item)
            → apply_mutation call.request.mutation item ≡ a
            → Goal
        by_outcome item (planned, err e) l a = absurd (ground arith)
        by_outcome item (planned, ok events) l a =
            by_plan item planned events l (ground arith) a (ground arith)

body-ok :
    (fault : Statement → Option SqliteError) (pinned : ReadStoreState) (call : Call) (db : Db)
    (result : MutationResult) (next : Option Db)
    → IsCovered db
    → body fault pinned call db ≡ ok (result, next)
    → (check_write_state (fault read_state) pinned db ≡ ok true) × Answers fault call db result next
unfolding body
body-ok fault pinned call db result next c h =
    (ground arith, by_receipt (find_receipt call.request.idempotency_key db) refl)
  where
    by_receipt :
        (r : Option ReceiptEntry)
        → find_receipt call.request.idempotency_key db ≡ r
        → Answers fault call db result next
    by_receipt none e = inr (apply_request-ok fault call db result next c e (ground arith))
    by_receipt (some r) e = inl (answer_receipt-ok fault call r db result next e (ground arith))

-- what the answer of `mutate` says of the store that it leaves
abbrev pub left : Db → Option Db → Db
left db none = db
left db (some next) = next

-- Whenever `mutate` answers on a store with a covered journal, the store was the one that the handle
-- has pinned, and the answer is one of three. Either the key's receipt has the payload's hash: the answer is the item as it is
-- stored now, and the store is left alone. Or the key is new, the item is at the expected revision
-- and the domain makes no event of the mutation: the item is answered and the store left alone. Or
-- it makes some, each with an id of its own: the answer is the mutated item with the new time of
-- change, and of the store exactly the item's row is updated, the operation, its events in order,
-- its receipt and one change in the journal are added, and the journal is covered again.
pub mutate-ok :
    (fault : Statement → Option SqliteError) (pinned : ReadStoreState) (call : Call) (db after : Db)
    (result : MutationResult)
    → IsCovered db
    → mutate fault pinned call db ≡ (after, ok result)
    → (check_write_state (fault read_state) pinned db ≡ ok true)
      × ((next : Option Db) × (after ≡ left db next) × Answers fault call db result next)
unfolding mutate
mutate-ok fault pinned call db after result c h = by_body (body fault pinned call db) refl
  where
    by_body :
        (b : Outcome (MutationResult × Option Db))
        → body fault pinned call db ≡ b
        → (check_write_state (fault read_state) pinned db ≡ ok true)
          × ((next : Option Db) × (after ≡ left db next) × Answers fault call db result next)
    by_body (err e) b = absurd (ground arith)
    by_body (ok (r, none)) b =
        let (checked, answers) = body-ok fault pinned call db result none c (ground arith) in
        (checked, (none, ground arith, answers))
    by_body (ok (r, some next)) b =
        let (checked, answers) = body-ok fault pinned call db result (some next) c (ground arith) in
        (checked, (some next, ground arith, answers))

-- A refused mutation leaves the store as it was, whatever statement of the transaction has failed.
pub mutate_err_unchanged :
    (fault : Statement → Option SqliteError) (pinned : ReadStoreState) (call : Call) (db after : Db)
    (e : MutationStoreError SqliteError)
    → mutate fault pinned call db ≡ (after, err e)
    → after ≡ db
unfolding mutate
mutate_err_unchanged fault pinned call db after e h = by_body (body fault pinned call db) refl
  where
    by_body :
        (b : Outcome (MutationResult × Option Db)) → body fault pinned call db ≡ b → after ≡ db
    by_body (err e) b = ground arith
    by_body (ok (r, none)) b = absurd (ground arith)
    by_body (ok (r, some next)) b = absurd (ground arith)
