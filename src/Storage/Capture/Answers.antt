-- ===== src/Storage/Capture/Answers.antt =====
-- The answers of `capture_inner`: what each tells of the store before and after.
use bif.Base.{
  ℕ, ◌+◌, ◌≡◌, ◌≢◌, ◌⊎◌, inl, inr, refl, sym, ◌∙◌, true, List, [], ◌∷◌, ◌++◌, Option, none, some,
  ok, err, arith, list_eq, nat_eq, subst, >>=-eq-ok,
}
use mathlib.Core.Path.{ap₂}
use bif.Base.Text.{Text}
use bif.Domain.Item.{Item, ItemId, new_item_id}
use bif.Application.Request.{CaptureInput, CaptureResult}
use bif.Storage.Codec.{SqliteError}
use bif.Storage.Db.{Db, CounterEntry, ItemEntry, ReceiptEntry, update, find_item, find_receipt}
use bif.Storage.Db.Captures.{
  is_counter, find_counter, insert_project, insert_counter, update_counter,
}
use bif.Storage.Engine.{step-ok}
use bif.Storage.Journal.{max_i64}
use bif.Storage.Journal.Coverage.{IsCovered}
use bif.Storage.Session.{ReadStoreState, check_write_state}
use bif.Storage.Capture.{
  Statement, read_state, read_counter, write_project, Stop, from_sqlite, Outcome, Call, as_u64,
  captured_item, expected, answer_receipt, allocate, write_capture, capture_new, body,
  capture_inner,
}
use bif.Storage.Capture.Commit.{Wrote, write_capture-ok}

-- the sequence that the counter, if there is one, hands out
abbrev pub sequence_of : Option CounterEntry → ℕ
sequence_of none = 1
sequence_of (some c) = c.next_sequence

-- the counters after it has handed one out
abbrev pub counted : Text → Text → Option CounterEntry → List CounterEntry → List CounterEntry
counted requester project_id none cs =
    cs ++ record { requester = requester; project_id = project_id; next_sequence = 2 } ∷ []
counted requester project_id (some c) cs =
    update (is_counter requester project_id) (λ x. record x { next_sequence = c.next_sequence + 1 })
      cs

allocate-ok :
    (fault : Statement → Option SqliteError) (requester project_id : Text)
    (current : Option CounterEntry) (db next : Db) (seq : ℕ)
    → allocate fault requester project_id current db ≡ ok (seq, next)
    → (seq ≡ sequence_of current)
      × (seq ≢ max_i64)
      × (next ≡ record db { counters = counted requester project_id current db.counters })
unfolding allocate insert_counter update_counter
allocate-ok fault requester project_id none db next seq h =
    (ground arith, λ e. ground arith, ground arith)
allocate-ok fault requester project_id (some c) db next seq h =
    (ground arith, λ e. ground arith, ground arith)

-- the counter that a capture meets
abbrev pub counter_for : CaptureInput → Db → Option CounterEntry
counter_for input db = find_counter input.requester.as_str input.project.as_str db

-- the store with the project of a capture, if it was missing, and its counter moved on
abbrev pub prepared : Call → Db → Db
prepared call db =
    let input = call.request.input in
    record (insert_project input.project.as_str call.occurred_at db) {
      counters =
          counted input.requester.as_str input.project.as_str (counter_for input db) db.counters;
    }

-- the item of a capture that meets the store
abbrev pub new_item : Call → Db → Item
new_item call db =
    let input = call.request.input in
    captured_item input call.occurred_at (record {
      requester = input.requester;
      project = input.project;
      sequence = sequence_of (counter_for input db);
    })

prepared-IsCovered : (call : Call) (db : Db) → IsCovered db → IsCovered (prepared call db)
unfolding insert_project
prepared-IsCovered call db c = record {
  generation = c.generation;
  floor = c.floor;
  fits = c.fits;
  allocator = c.allocator;
  covers = c.covers;
}

allocated-ok :
    (fault : Statement → Option SqliteError) (call : Call) (db d2 : Db) (seq : ℕ)
    → allocate fault call.request.input.requester.as_str call.request.input.project.as_str
        (counter_for call.request.input db)
        (insert_project call.request.input.project.as_str call.occurred_at db)
      ≡ ok (seq, d2)
    → (seq ≡ sequence_of (counter_for call.request.input db))
      × (seq ≢ max_i64)
      × (d2 ≡ prepared call db)
unfolding insert_project
allocated-ok fault call db d2 seq h =
    allocate-ok fault call.request.input.requester.as_str call.request.input.project.as_str
      (counter_for call.request.input db)
      (insert_project call.request.input.project.as_str call.occurred_at db) d2 seq h

expected-ok :
    (call : Call) (seq : ℕ) (id : ItemId)
    → expected (new_item_id call.request.input.requester call.request.input.project seq) ≡ ok id
    → (id ≡ record {
      requester = call.request.input.requester;
      project = call.request.input.project;
      sequence = seq;
    })
      × (seq ≢ 0)
unfolding new_item_id
expected-ok call seq id h = (ground arith, λ e. ground arith)

abbrev pub Captures : Call → Db → CaptureResult → Option Db → Type 0
Captures call db result next =
    (find_receipt call.request.idempotency_key db ≡ none)
    × (sequence_of (counter_for call.request.input db) ≢ 0)
    × (sequence_of (counter_for call.request.input db) ≢ max_i64)
    × Wrote call (new_item call db) (prepared call db) result next

capture_new-steps :
    (fault : Statement → Option SqliteError) (call : Call) (db d1 d2 : Db)
    (current : Option CounterEntry) (seq : ℕ) (id : ItemId) (result : CaptureResult)
    (next : Option Db)
    → IsCovered db
    → find_receipt call.request.idempotency_key db ≡ none
    → insert_project call.request.input.project.as_str call.occurred_at db ≡ d1
    → counter_for call.request.input d1 ≡ current
    → allocate fault call.request.input.requester.as_str call.request.input.project.as_str current
        d1
      ≡ ok (seq, d2)
    → expected (new_item_id call.request.input.requester call.request.input.project seq) ≡ ok id
    → write_capture fault call (captured_item call.request.input call.occurred_at id) d2
      ≡ ok (result, next)
    → Captures call db result next
unfolding insert_project
capture_new-steps fault call db d1 d2 current seq id result next c fresh h1 h2 h3 h4 h5 =
    let (number, below, store) = allocated-ok fault call db d2 seq (ground arith) in
    let (same, positive) = expected-ok call seq id h4 in
    let item : captured_item call.request.input call.occurred_at id ≡ new_item call db =
      ground arith in
    (
      fresh,
      subst (λ n. n ≢ 0) number positive,
      subst (λ n. n ≢ max_i64) number below,
      write_capture-ok fault call (new_item call db) (prepared call db) result next
          (prepared-IsCovered call db c)
          (ap₂ (write_capture fault call) (sym item) (sym store) ∙ h5),
    )

capture_new-ok :
    (fault : Statement → Option SqliteError) (call : Call) (db : Db) (result : CaptureResult)
    (next : Option Db)
    → IsCovered db
    → find_receipt call.request.idempotency_key db ≡ none
    → capture_new fault call db ≡ ok (result, next)
    → Captures call db result next
unfolding capture_new
capture_new-ok fault call db result next c fresh h =
    let input = call.request.input in
    let (d1, h1, k1) =
      step-ok fault write_project from_sqlite
        (ok (insert_project input.project.as_str call.occurred_at db)) _ (result, next) h in
    let (current, h2, k2) =
      step-ok fault read_counter from_sqlite
        (ok (find_counter input.requester.as_str input.project.as_str d1)) _ (result, next) k1 in
    let ((seq, d2), h3, k3) =
      >>=-eq-ok (allocate fault input.requester.as_str input.project.as_str current d1) _ k2 in
    let (id, h4, k4) = >>=-eq-ok (expected (new_item_id input.requester input.project seq)) _ k3 in
    capture_new-steps fault call db d1 d2 current seq id result next c fresh (ground arith)
      (ground arith) h3 h4 k4

-- the stored receipt of the key has the payload's hash, and the answer is the item as it was captured
abbrev pub Replays : Call → Db → CaptureResult → Type 0
Replays call db result =
    (receipt : ReceiptEntry) × (i : ItemEntry) × (find_receipt call.request.idempotency_key db
      ≡ some receipt)
    × (receipt.payload_hash ≡ call.payload_hash)
    × (find_item receipt.item_id db ≡ some i)
    × (as_u64 i.columns.sequence ≢ 0)
    × (result ≡ record {
      item = captured_item call.request.input i.columns.captured_at (record {
        requester = call.request.input.requester;
        project = call.request.input.project;
        sequence = as_u64 i.columns.sequence;
      });
      replayed = true;
    })

-- the two ways in which a capture is answered
abbrev pub Answers : Call → Db → CaptureResult → Option Db → Type 0
Answers call db result next =
    (Replays call db result × (next ≡ none)) ⊎ Captures call db result next

answer_receipt-ok :
    (fault : Statement → Option SqliteError) (call : Call) (receipt : ReceiptEntry) (db : Db)
    (result : CaptureResult) (next : Option Db)
    → find_receipt call.request.idempotency_key db ≡ some receipt
    → answer_receipt fault call receipt db ≡ ok (result, next)
    → Replays call db result × (next ≡ none)
unfolding answer_receipt new_item_id
answer_receipt-ok fault call receipt db result next at h =
    by_row (find_item receipt.item_id db) refl
  where
    by_row :
        (r : Option ItemEntry)
        → find_item receipt.item_id db ≡ r
        → Replays call db result × (next ≡ none)
    by_row none e = absurd (ground arith)
    by_row (some i) e =
        ((receipt, i, at, ground arith, e, (λ z. ground arith), ground arith), ground arith)

body-ok :
    (fault : Statement → Option SqliteError) (pinned : ReadStoreState) (call : Call) (db : Db)
    (result : CaptureResult) (next : Option Db)
    → IsCovered db
    → body fault pinned call db ≡ ok (result, next)
    → (check_write_state (fault read_state) pinned db ≡ ok true) × Answers call db result next
unfolding body
body-ok fault pinned call db result next c h =
    (ground arith, by_receipt (find_receipt call.request.idempotency_key db) refl)
  where
    by_receipt :
        (r : Option ReceiptEntry)
        → find_receipt call.request.idempotency_key db ≡ r
        → Answers call db result next
    by_receipt none e = inr (capture_new-ok fault call db result next c e (ground arith))
    by_receipt (some r) e = inl (answer_receipt-ok fault call r db result next e (ground arith))

-- what an answer says of the store that it leaves
abbrev pub left : Db → Option Db → Db
left db none = db
left db (some next) = next

-- Whenever a capture is answered on a store with a covered journal, the store was the one that the
-- handle has pinned. Either the key's receipt has the payload's hash: the answer is the request's
-- item as it was captured, at the stored sequence and time, and the store is left alone. Or the key
-- is new: the answer is the request's item at the sequence that the counter of its requester and
-- project hands out, an id that no item had, and the store has exactly these additions: the project,
-- if it was missing, the counter moved on, the item with its criteria and provenance, an operation,
-- an event, a receipt and one change in the journal, which is covered again.
pub capture_inner-ok :
    (fault : Statement → Option SqliteError) (pinned : ReadStoreState) (call : Call) (db after : Db)
    (result : CaptureResult)
    → IsCovered db
    → capture_inner fault pinned call db ≡ (after, ok result)
    → (check_write_state (fault read_state) pinned db ≡ ok true)
      × ((next : Option Db) × (after ≡ left db next) × Answers call db result next)
unfolding capture_inner
capture_inner-ok fault pinned call db after result c h = by_body (body fault pinned call db) refl
  where
    by_body :
        (b : Outcome (CaptureResult × Option Db))
        → body fault pinned call db ≡ b
        → (check_write_state (fault read_state) pinned db ≡ ok true)
          × ((next : Option Db) × (after ≡ left db next) × Answers call db result next)
    by_body (err e) b = absurd (ground arith)
    by_body (ok (r, none)) b =
        let (checked, answers) = body-ok fault pinned call db result none c (ground arith) in
        (checked, (none, ground arith, answers))
    by_body (ok (r, some next)) b =
        let (checked, answers) = body-ok fault pinned call db result (some next) c (ground arith) in
        (checked, (some next, ground arith, answers))

-- A capture that is refused, or that panics, leaves the store as it was.
pub capture_inner_err_unchanged :
    (fault : Statement → Option SqliteError) (pinned : ReadStoreState) (call : Call) (db after : Db)
    (stop : Stop)
    → capture_inner fault pinned call db ≡ (after, err stop)
    → after ≡ db
unfolding capture_inner
capture_inner_err_unchanged fault pinned call db after stop h =
    by_body (body fault pinned call db) refl
  where
    by_body : (b : Outcome (CaptureResult × Option Db)) → body fault pinned call db ≡ b → after ≡ db
    by_body (err e) b = ground arith
    by_body (ok (r, none)) b = absurd (ground arith)
    by_body (ok (r, some next)) b = absurd (ground arith)
