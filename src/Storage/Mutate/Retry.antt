-- ===== src/Storage/Mutate/Retry.antt =====
-- A repeated request is answered from its receipt.
use bif.Base.{
  ℕ, ◌+◌, ◌≡◌, ◌≢◌, inl, inr, sym, ap, ◌∙◌, true, List, Option, none, some, ok, err, arith, ◌==◌,
  list_eq, nat_eq, if◌then◌else◌, subst,
}
use bif.Base.Text.{Text}
use bif.Domain.Item.{Item, set_updated_at}
use bif.Domain.Mutation.{DomainEvent, apply_mutation}
use bif.Application.Request.{MutationResult, idempotency_conflict}
use bif.Storage.Codec.{SqliteError}
use bif.Storage.Codec.RoundTrip.{IsStorable}
use bif.Storage.Db.{Db, ReceiptEntry, find_receipt}
use bif.Storage.Session.{ReadStoreState, read_store_state, check_write_state, judge_state}
use bif.Storage.Journal.Coverage.{IsCovered}
use bif.Storage.Mutate.{
  Statement, read_state, Call, receipt_entry, load_item, answer_receipt, body, mutate,
}
use bif.Storage.Db.Inserts.{find-append}
use bif.Storage.Mutate.Commit.{committed}
use bif.Storage.Mutate.Answers.{Answers, mutate-ok, left}
use bif.Storage.Mutate.Stored.{
  IsStored, no_fault, load_item-IsStored, load_item-no_fault, load_item-same, committed-IsStored,
}

-- a receipt of a key decides every request with that key
pub mutate-receipt :
    (pinned : ReadStoreState) (retry : Call) (db : Db) (receipt : ReceiptEntry) (item : Item)
    → check_write_state none pinned db ≡ ok true
    → find_receipt retry.request.idempotency_key db ≡ some receipt
    → load_item no_fault receipt.item_id db ≡ ok (some item)
    → mutate no_fault pinned retry db ≡ (
      db,
      if receipt.payload_hash == retry.payload_hash
          then ok (record { item = item; replayed = true })
          else err idempotency_conflict,
    )
unfolding mutate body answer_receipt
mutate-receipt pinned retry db receipt item c r l = ground arith

pub check_write_state-none :
    (fault : Option SqliteError) (pinned : ReadStoreState) (db : Db)
    → check_write_state fault pinned db ≡ ok true
    → check_write_state none pinned db ≡ ok true
unfolding check_write_state judge_state
check_write_state-none none pinned db h = h
check_write_state-none (some e) pinned db h = absurd (ground arith)

-- a retry after a commit
retry_committed :
    (pinned : ReadStoreState) (call retry : Call) (db : Db) (item planned : Item)
    (events : List DomainEvent) (seq : ℕ) (project_id : Text)
    → check_write_state none pinned db ≡ ok true
    → IsStored db item
    → IsStorable (set_updated_at call.occurred_at planned)
    → apply_mutation call.request.mutation item ≡ (planned, ok events)
    → find_receipt call.request.idempotency_key db ≡ none
    → retry.request.idempotency_key ≡ call.request.idempotency_key
    → let new = set_updated_at call.occurred_at planned in
      let after = committed call new events seq project_id db in
      mutate no_fault pinned retry after ≡ (
        after,
        if call.payload_hash == retry.payload_hash
            then ok (record { item = new; replayed = true })
            else err idempotency_conflict,
      )
unfolding check_write_state read_store_state
retry_committed pinned call retry db item planned events seq project_id checked stored fits applied
      fresh key =
    let new = set_updated_at call.occurred_at planned in
    mutate-receipt pinned retry (committed call new events seq project_id db)
      (receipt_entry call new events) new checked
      (subst
        (λ k.
          find_receipt k (committed call new events seq project_id db)
          ≡ some (receipt_entry call new events))
        (sym key) (find-append _ db.receipts (receipt_entry call new events) fresh (ground arith)))
      (load_item-IsStored _ new
        (committed-IsStored call item planned events seq project_id db stored applied) fits)

-- In a store with a covered journal, where the item is stored and the constructors accept it before
-- and after: once a request on it has been answered and there is a receipt of its key, every request
-- with that key that comes next, whatever else it asks, is answered from the receipt, as long as the
-- engine does not fail: with the same payload hash by the same item, marked as replayed, and with
-- another hash by an idempotency conflict. It changes nothing.
pub mutate-retry :
    (fault : Statement → Option SqliteError) (pinned : ReadStoreState) (call retry : Call)
    (db after : Db) (item : Item) (result : MutationResult)
    → IsCovered db
    → IsStored db item
    → item.id ≡ call.request.item_id
    → IsStorable item
    → IsStorable result.item
    → mutate fault pinned call db ≡ (after, ok result)
    → find_receipt call.request.idempotency_key after ≢ none
    → retry.request.idempotency_key ≡ call.request.idempotency_key
    → mutate no_fault pinned retry after ≡ (
      after,
      if call.payload_hash == retry.payload_hash
          then ok (record { item = result.item; replayed = true })
          else err idempotency_conflict,
    )
mutate-retry fault pinned call retry db after item result c stored own fits fits' h left_receipt
      key =
    let (checked, (next, to, answers)) = mutate-ok fault pinned call db after result c h in
    by_answer next to (check_write_state-none (fault read_state) pinned db checked) answers
  where
    Goal : Type 0
    Goal = mutate no_fault pinned retry after ≡ (
      after,
      if call.payload_hash == retry.payload_hash
          then ok (record { item = result.item; replayed = true })
          else err idempotency_conflict,
    )

    by_answer :
        (next : Option Db)
        → after ≡ left db next
        → check_write_state none pinned db ≡ ok true
        → Answers fault call db result next
        → Goal
    by_answer next to checked (inl ((receipt, at, hash, loaded, _), none_next)) =
        let same : db ≡ after = ground arith in
        let again =
          mutate-receipt pinned retry db receipt result.item checked (ground arith)
            (load_item-no_fault fault receipt.item_id db (some result.item) loaded) in
        cc
    by_answer next to checked (inr (inl (((_, fresh, _, _, _), _), none_next))) =
        absurd (left_receipt (ground arith))
    by_answer next to checked
          (inr (
            inr (
              planned,
              events,
              (item', fresh, loaded, _, applied),
              _,
              _,
              (i, _, answer, commits, _),
            ))) =
        let same = load_item-same fault call.request.item_id db item item' stored fits own loaded in
        let again =
          retry_committed pinned call retry db item planned events (db.metadata.high_water + 1)
            i.columns.project_id checked stored
            (subst IsStorable (ap (λ (r : MutationResult). r.item) answer) fits')
            (ap (apply_mutation call.request.mutation) (sym same) ∙ applied) fresh key in
        let settled : after
            ≡ committed call (set_updated_at call.occurred_at planned) events
                (db.metadata.high_water + 1) i.columns.project_id db =
          to ∙ ap (left db) commits in
        cc
