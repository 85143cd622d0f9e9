-- ===== src/Storage/Capture/Retry.antt =====
-- A capture that is asked for again is answered from its receipt.
use bif.Base.{
  ℕ, ◌^◌, ◌<◌, ◌≡◌, ◌≢◌, inl, inr, sym, ap, failed, ◌∙◌, true, Option, none, some, ok, err, arith,
  ◌==◌, list_eq, nat_eq, if◌then◌else◌, subst, refl,
}
use bif.Base.Int.{as_i64}
use bif.Domain.Item.{Item, new_item_id, new_capture}
use bif.Domain.Item.Display.{display}
use bif.Application.Request.{CaptureInput, CaptureResult, idempotency_conflict}
use bif.Storage.Codec.{SqliteError, item_columns}
use bif.Storage.Db.{Db, ItemEntry, ReceiptEntry, find_receipt, find_item, is_item}
use bif.Storage.Db.Inserts.{find-append}
use bif.Storage.Db.Captures.{insert_project}
use bif.Storage.Session.{ReadStoreState, check_write_state, read_store_state}
use bif.Storage.Journal.Coverage.{IsCovered}
use bif.Storage.Mutate.Retry.{check_write_state-none}
use bif.Storage.Capture.{
  Statement, read_state, Call, as_u64, captured_item, item_entry, receipt_entry, answer_receipt,
  body, capture_inner,
}
use bif.Storage.Capture.Commit.{with_capture}
use bif.Storage.Capture.Answers.{
  sequence_of, counter_for, prepared, new_item, Answers, left, capture_inner-ok,
}
use bif.Storage.Capture.Numbering.{IsNumbered, sequence_fits}

-- no statement is refused
abbrev pub no_fault : Statement → Option SqliteError
no_fault s = none

-- the item of a request at the sequence and the time of another
abbrev pub recaptured : CaptureInput → Item → Item
recaptured input item =
    captured_item input item.captured_at
      (record { requester = input.requester; project = input.project; sequence = item.id.sequence })

-- a receipt of a key decides every capture with that key
capture_inner-receipt :
    (pinned : ReadStoreState) (retry : Call) (db : Db) (receipt : ReceiptEntry) (row : ItemEntry)
    (item : Item)
    → check_write_state none pinned db ≡ ok true
    → find_receipt retry.request.idempotency_key db ≡ some receipt
    → find_item receipt.item_id db ≡ some row
    → as_u64 row.columns.sequence ≡ item.id.sequence
    → row.columns.captured_at ≡ item.captured_at
    → item.id.sequence ≢ 0
    → capture_inner no_fault pinned retry db ≡ (
      db,
      if receipt.payload_hash == retry.payload_hash
          then ok (record { item = recaptured retry.request.input item; replayed = true })
          else err (failed idempotency_conflict),
    )
unfolding capture_inner body answer_receipt new_item_id
capture_inner-receipt pinned retry db receipt row item c r i n t z = ground arith

u64_kept : (n : ℕ) → n < 2 ^ 64 → as_u64 (as_i64 n) ≡ n
unfolding as_i64
u64_kept n h = ground arith

-- a retry after a commit
retry_captured :
    (pinned : ReadStoreState) (call retry : Call) (db : Db)
    → check_write_state none pinned db ≡ ok true
    → find_receipt call.request.idempotency_key db ≡ none
    → find_item (display (new_item call db).id) (prepared call db) ≡ none
    → sequence_of (counter_for call.request.input db) ≢ 0
    → sequence_of (counter_for call.request.input db) < 2 ^ 63
    → retry.request.idempotency_key ≡ call.request.idempotency_key
    → let item = new_item call db in
      let after = with_capture call item (prepared call db) in
      capture_inner no_fault pinned retry after ≡ (
        after,
        if call.payload_hash == retry.payload_hash
            then ok (record { item = recaptured retry.request.input item; replayed = true })
            else err (failed idempotency_conflict),
      )
unfolding check_write_state read_store_state insert_project item_columns new_capture
retry_captured pinned call retry db checked fresh new positive fits key =
    let item = new_item call db in
    let after = with_capture call item (prepared call db) in
    let receipt =
      subst (λ k. find_receipt k after ≡ some (receipt_entry call item)) (sym key)
        (find-append _ db.receipts (receipt_entry call item) fresh (ground arith)) in
    let row =
      find-append (is_item (display item.id)) db.items (item_entry item) new (ground arith) in
    capture_inner-receipt pinned retry after (receipt_entry call item) (item_entry item) item
      checked receipt row (u64_kept (sequence_of (counter_for call.request.input db)) (omega arith))
      refl positive

-- Once a capture has been answered on a store whose journal is covered and whose items are numbered,
-- every capture with its key that comes next is answered from the receipt, as long as the engine does
-- not fail: with the same payload hash by what it asks for at the first answer's sequence and time,
-- marked as replayed, and with another hash by an idempotency conflict. It changes nothing.
pub capture_inner-retry :
    (fault : Statement → Option SqliteError) (pinned : ReadStoreState) (call retry : Call)
    (db after : Db) (result : CaptureResult)
    → IsCovered db
    → IsNumbered db
    → capture_inner fault pinned call db ≡ (after, ok result)
    → retry.request.idempotency_key ≡ call.request.idempotency_key
    → capture_inner no_fault pinned retry after ≡ (
      after,
      if call.payload_hash == retry.payload_hash
          then ok (record { item = recaptured retry.request.input result.item; replayed = true })
          else err (failed idempotency_conflict),
    )
unfolding new_capture
capture_inner-retry fault pinned call retry db after result c n h key =
    let (checked, (next, to, answers)) = capture_inner-ok fault pinned call db after result c h in
    by_answer next to (check_write_state-none (fault read_state) pinned db checked) answers
  where
    Goal : Type 0
    Goal = capture_inner no_fault pinned retry after ≡ (
      after,
      if call.payload_hash == retry.payload_hash
          then ok (record { item = recaptured retry.request.input result.item; replayed = true })
          else err (failed idempotency_conflict),
    )

    by_answer :
        (next : Option Db)
        → after ≡ left db next
        → check_write_state none pinned db ≡ ok true
        → Answers call db result next
        → Goal
    by_answer next to checked
          (inl ((receipt, row, at, hash, stored, positive, answer), none_next)) =
        let same : db ≡ after = ground arith in
        let again =
          capture_inner-receipt pinned retry db receipt row result.item checked (ground arith)
            stored (ground arith) (ground arith) (λ z. positive (ground arith)) in
        cc
    by_answer next to checked (inr (fresh, positive, below, wrote)) =
        let (answer, commits, new, _) = wrote in
        let input = call.request.input in
        let fits =
          sequence_fits input.requester.as_str input.project.as_str _ db.counters n.counters refl in
        let again = retry_captured pinned call retry db checked fresh new positive fits key in
        let settled : after ≡ with_capture call (new_item call db) (prepared call db) =
          to ∙ ap (left db) commits in
        cc

-- an answer is the request's item, at the answer's own sequence and time
pub capture_inner-recaptured :
    (fault : Statement → Option SqliteError) (pinned : ReadStoreState) (call : Call) (db after : Db)
    (result : CaptureResult)
    → IsCovered db
    → capture_inner fault pinned call db ≡ (after, ok result)
    → recaptured call.request.input result.item ≡ result.item
unfolding new_capture
capture_inner-recaptured fault pinned call db after result c h =
    let (_, (next, _, answers)) = capture_inner-ok fault pinned call db after result c h in
    by_answer next answers
  where
    by_answer :
        (next : Option Db)
        → Answers call db result next
        → recaptured call.request.input result.item ≡ result.item
    by_answer next (inl ((_, _, _, _, _, _, answer), _)) = ground arith
    by_answer next (inr (_, _, _, wrote)) = let (answer, _, _, _) = wrote in ground arith
