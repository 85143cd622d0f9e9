-- ===== src/Storage/Capture/Commit.antt =====
-- What a capture that commits has written.
use bif.Base.{
  ℕ, suc, ◌+◌, ◌≡◌, refl, ap, ◌∙◌, Bool, false, List, [], ◌∷◌, ◌++◌, Option, none, some, Result, ok,
  arith, ◌==◌, list_eq, nat_eq, >>=-eq-ok, append_assoc, append-nil, subst, ◌||◌, any,
}
use bif.Base.Text.{Text}
use bif.Base.Int.{pos}
use bif.Domain.Item.{Item}
use bif.Domain.Item.Display.{display}
use bif.Application.Request.{CaptureResult}
use bif.Storage.Codec.{SqliteError, item_columns}
use bif.Storage.Db.{
  Db, CriterionEntry, OperationEntry, find, is_item, find_item, find_operation, insert_event,
  insert_operation, insert_receipt,
}
use bif.Storage.Db.Inserts.{insert_event-ok, insert_receipt-ok, insert_operation-ok, find-append}
use bif.Storage.Db.Captures.{insert_item, same_identity, insert_criterion, insert_provenance}
use bif.Storage.Engine.{execute, execute-ok, step-ok, bind-ok}
use bif.Storage.Journal.{append_change}
use bif.Storage.Journal.Coverage.{IsCovered, append_change-ok, append_change-IsCovered}
use bif.Storage.Capture.{
  Statement, Stop, Call, write_criterion, write_item, write_provenance, write_operation,
  write_event, item_entry, provenance_entry, operation_entry, capture_event, receipt_entry,
  from_journal, insert_criteria, insert_capture, write_capture,
}

abbrev pub criterion_entries : Text → ℕ → List Text → List CriterionEntry
criterion_entries item_id index [] = []
criterion_entries item_id index (criterion ∷ criteria) =
    record { item_id = item_id; criterion_index = index; criterion = criterion }
    ∷ criterion_entries item_id (suc index) criteria

insert_criterion-ok :
    (c : CriterionEntry) (db db' : Db)
    → insert_criterion c db ≡ ok db'
    → db' ≡ record db { criteria = db.criteria ++ c ∷ [] }
unfolding insert_criterion
insert_criterion-ok c db db' h = ground arith

insert_criteria-ok :
    (fault : Statement → Option SqliteError) (item_id : Text) (index : ℕ) (criteria : List Text)
    (db db' : Db)
    → insert_criteria fault item_id index criteria db ≡ ok db'
    → db' ≡ record db { criteria = db.criteria ++ criterion_entries item_id index criteria }
unfolding insert_criteria
insert_criteria-ok fault item_id index [] db db' h = ground (arith, append-nil db.criteria)
insert_criteria-ok fault item_id index (t ∷ ts) db db' h =
    let row : CriterionEntry = record {
      item_id = item_id;
      criterion_index = index;
      criterion = t;
    } in
    let (next, first, rest) =
      >>=-eq-ok (execute fault (write_criterion index) (insert_criterion row db)) _ h in
    let at =
      insert_criterion-ok row db next
        (execute-ok fault (write_criterion index) (insert_criterion row db) next first) in
    let back = insert_criteria-ok fault item_id (suc index) ts next db' rest in
    ground (arith, append_assoc db.criteria (row ∷ []) (criterion_entries item_id (suc index) ts))

find-none :
    {A : Type 0} (p q : A → Bool) (xs : List A)
    → any (λ x. p x || q x) xs ≡ false
    → find p xs ≡ none
unfolding find
find-none p q [] h = refl
find-none p q (x ∷ xs) h = ground (arith, find-none p q xs)

-- the store with the rows of a captured item, before its receipt
abbrev with_item : Call → Item → Db → Db
with_item call item db = record db {
  items = db.items ++ item_entry item ∷ [];
  criteria = db.criteria ++ criterion_entries (display item.id) 0 item.content.acceptance_criteria;
  provenance = db.provenance ++ provenance_entry item ∷ [];
  operations = db.operations ++ operation_entry call item ∷ [];
  events = db.events ++ capture_event call item ∷ [];
}

rows-written :
    (call : Call) (item : Item) (db d1 d2 d3 d4 d5 : Db)
    → insert_item (item_entry item) db ≡ ok d1
    → d2 ≡ record d1 {
      criteria =
          d1.criteria ++ criterion_entries (display item.id) 0 item.content.acceptance_criteria;
    }
    → insert_provenance (provenance_entry item) d2 ≡ ok d3
    → insert_operation (operation_entry call item) d3 ≡ ok d4
    → insert_event (capture_event call item) d4 ≡ ok d5
    → (d5 ≡ with_item call item db)
      × (find_operation call.identity.operation_id db ≡ none)
      × (find_item (display item.id) db ≡ none)
unfolding insert_item insert_provenance
rows-written call item db d1 d2 d3 d4 d5 h1 e2 h3 h4 h5 =
    let (e4, fresh) = insert_operation-ok (operation_entry call item) d3 d4 h4 in
    let e5 = insert_event-ok (capture_event call item) d4 d5 h5 in
    (
      ground arith,
      ground arith,
      find-none (is_item (display item.id)) (λ x. same_identity x (item_entry item)) db.items
          (ground arith),
    )

insert_capture-ok :
    (fault : Statement → Option SqliteError) (call : Call) (item : Item) (db db' : Db)
    → insert_capture fault call item db ≡ ok db'
    → (db' ≡ with_item call item db)
      × (find_operation call.identity.operation_id db ≡ none)
      × (find_item (display item.id) db ≡ none)
unfolding insert_capture
insert_capture-ok fault call item db db' h =
    let (d1, h1, k1) =
      >>=-eq-ok (execute fault write_item (insert_item (item_entry item) db)) _ h in
    let (d2, h2, k2) =
      >>=-eq-ok (insert_criteria fault (display item.id) 0 item.content.acceptance_criteria d1) _
        k1 in
    let (d3, h3, k3) =
      >>=-eq-ok (execute fault write_provenance (insert_provenance (provenance_entry item) d2)) _
        k2 in
    let (d4, h4, k4) =
      >>=-eq-ok (execute fault write_operation (insert_operation (operation_entry call item) d3)) _
        k3 in
    rows-written call item db d1 d2 d3 d4 db'
      (execute-ok fault write_item (insert_item (item_entry item) db) d1 h1)
      (insert_criteria-ok fault (display item.id) 0 item.content.acceptance_criteria d1 d2 h2)
      (execute-ok fault write_provenance (insert_provenance (provenance_entry item) d2) d3 h3)
      (execute-ok fault write_operation (insert_operation (operation_entry call item) d3) d4 h4)
      (execute-ok fault write_event (insert_event (capture_event call item) d4) db' k4)

-- the store with a captured item and its receipt, before its change is journaled
abbrev with_receipt : Call → Item → Db → Db
with_receipt call item db =
    let d = with_item call item db in
    record d { receipts = db.receipts ++ receipt_entry call item ∷ [] }

with_receipt-IsCovered :
    (call : Call) (item : Item) (db : Db) → IsCovered db → IsCovered (with_receipt call item db)
with_receipt-IsCovered call item db c = record {
  generation = c.generation;
  floor = c.floor;
  fits = c.fits;
  allocator = c.allocator;
  covers = c.covers;
}

-- The store with a captured item, the receipt of the capture and its change in the journal.
abbrev pub with_capture : Call → Item → Db → Db
with_capture call item db =
    let d = with_receipt call item db in
    let seq = db.metadata.high_water + 1 in
    record d {
      metadata = record db.metadata { high_water = seq };
      journal =
          db.journal
          ++ record {
            change_seq = seq;
            operation_id = call.identity.operation_id;
            item_id = display item.id;
            project_id = item.id.project.as_str;
            item_revision = pos 1;
          }
            ∷ [];
      allocator = seq;
    }

append_change-captured :
    (call : Call) (item : Item) (db next : Db) (seq : ℕ)
    → IsCovered db
    → find_operation call.identity.operation_id db ≡ none
    → find_item (display item.id) db ≡ none
    → append_change call.identity.operation_id (with_receipt call item db) ≡ ok (seq, next)
    → next ≡ with_capture call item db
unfolding item_columns
append_change-captured call item db next seq c fresh new h =
    let (o, i, at, joined, number, _, to) =
      append_change-ok call.identity.operation_id (with_receipt call item db) next seq
        (with_receipt-IsCovered call item db c) h in
    let own =
      find-append (λ (x : OperationEntry). x.operation_id == call.identity.operation_id)
        db.operations (operation_entry call item) fresh (ground arith) in
    let same : o ≡ operation_entry call item = ground arith in
    let row =
      find-append (is_item (display item.id)) db.items (item_entry item) new (ground arith) in
    ground arith

abbrev pub Wrote : Call → Item → Db → CaptureResult → Option Db → Type 0
Wrote call item db result next =
    (result ≡ record { item = item; replayed = false })
    × (next ≡ some (with_capture call item db))
    × (find_item (display item.id) db ≡ none)
    × IsCovered (with_capture call item db)

receipt-written :
    (call : Call) (item : Item) (db d1 d2 : Db)
    → d1 ≡ with_item call item db
    → insert_receipt (receipt_entry call item) d1 ≡ ok d2
    → d2 ≡ with_receipt call item db
receipt-written call item db d1 d2 rows h =
    let receipts = insert_receipt-ok (receipt_entry call item) d1 d2 h in ground arith

-- `commit` and the answer
answered :
    (item : Item) (d3 d4 : Db) (result : CaptureResult) (next : Option Db)
    → ◌≡◌ {A = Result Db SqliteError} (ok d3) (ok d4)
    → ◌≡◌ {A = Result (CaptureResult × Option Db) Stop}
        (ok (record { item = item; replayed = false }, some d4))
        (ok (result, next))
    → (result ≡ record { item = item; replayed = false }) × (next ≡ some d3)
answered item d3 d4 result next h k = (ground arith, ground arith)

pub write_capture-ok :
    (fault : Statement → Option SqliteError) (call : Call) (item : Item) (db : Db)
    (result : CaptureResult) (next : Option Db)
    → IsCovered db
    → write_capture fault call item db ≡ ok (result, next)
    → Wrote call item db result next
unfolding write_capture
write_capture-ok fault call item db result next c h =
    let (d1, h1, k1) = bind-ok _ _ _ (result, next) h in
    let (d2, h2, k2) = step-ok fault _ _ _ _ (result, next) k1 in
    let (_, _, k3) = step-ok fault _ _ _ _ (result, next) k2 in
    let ((seq, d3), h3, k4) =
      bind-ok from_journal (append_change call.identity.operation_id d2) _ (result, next) k3 in
    let (d4, h4, k5) = step-ok fault _ _ _ _ (result, next) k4 in
    let (rows, fresh, new) = insert_capture-ok fault call item db d1 h1 in
    let all_written = receipt-written call item db d1 d2 rows h2 in
    let journaled =
      subst (λ d. append_change call.identity.operation_id d ≡ ok (seq, d3)) all_written h3 in
    let to = append_change-captured call item db d3 seq c fresh new journaled in
    let covered =
      append_change-IsCovered call.identity.operation_id (with_receipt call item db) d3 seq
        (with_receipt-IsCovered call item db c) journaled in
    let (one, two) = answered item d3 d4 result next h4 k5 in
    (one, two ∙ ap some to, new, subst IsCovered to covered)
