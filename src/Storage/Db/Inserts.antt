-- ===== src/Storage/Db/Inserts.antt =====
-- What an INSERT or an UPDATE that goes through has done to its table.
use bif.Base.{
  ◌≡◌, Bool, true, List, [], ◌∷◌, ◌++◌, none, some, ok, arith, ◌==◌, list_eq, nat_eq, if◌then◌else◌,
  Bool-cases, inl, inr,
}
use bif.Base.Text.{Text}
use bif.Storage.Codec.{ItemColumns}
use bif.Storage.Db.{
  Db, EventEntry, ItemEntry, OperationEntry, ReceiptEntry, find, update, is_item, update_item,
  insert_operation, insert_event, insert_receipt, find_operation,
}

pub insert_event-ok :
    (e : EventEntry) (db db' : Db)
    → insert_event e db ≡ ok db'
    → db' ≡ record db { events = db.events ++ e ∷ [] }
unfolding insert_event
insert_event-ok e db db' h = ground arith

pub update_item-ok :
    (id : Text) (f : ItemColumns → ItemColumns) (db db' : Db)
    → update_item id f db ≡ ok db'
    → db'
      ≡ record db { items = update (is_item id) (λ e. record e { columns = f e.columns }) db.items }
unfolding update_item
update_item-ok id f db db' h = ground arith

pub insert_receipt-ok :
    (r : ReceiptEntry) (db db' : Db)
    → insert_receipt r db ≡ ok db'
    → db' ≡ record db { receipts = db.receipts ++ r ∷ [] }
unfolding insert_receipt
insert_receipt-ok r db db' h = ground arith

pub insert_operation-ok :
    (o : OperationEntry) (db db' : Db)
    → insert_operation o db ≡ ok db'
    → (db' ≡ record db { operations = db.operations ++ o ∷ [] })
      × (find_operation o.operation_id db ≡ none)
unfolding insert_operation
insert_operation-ok o db db' h = ground arith

pub find-append :
    {A : Type 0} (p : A → Bool) (xs : List A) (x : A)
    → find p xs ≡ none
    → p x ≡ true
    → find p (xs ++ x ∷ []) ≡ some x
unfolding find
find-append p [] x h k = ground arith
find-append p (y ∷ xs) x h k = ground (arith, find-append p xs x)

-- the found row of a table after its UPDATE
pub find-update :
    (id : Text) (f : ItemColumns → ItemColumns) (id' : Text) (es : List ItemEntry) (i : ItemEntry)
    → find (is_item id') (update (is_item id) (λ e. record e { columns = f e.columns }) es) ≡ some i
    → (old : ItemEntry) × (find (is_item id') es ≡ some old)
      × (i ≡ (if old.item_id == id then record old { columns = f old.columns } else old))
unfolding find update
find-update id f id' [] i h = absurd (ground arith)
find-update id f id' (e ∷ es) i h = elim (Bool-cases (e.item_id == id')) [
  | inl hit ↦ (e, ground arith, ground arith)
  | inr miss ↦
      let (old, at, same) = find-update id f id' es i (ground arith) in (old, ground arith, same)
]
