-- ===== src/Storage/Journal/Coverage.antt =====
-- The journal holds exactly the positions above its floor, up to its high-water mark.
use bif.Base.{
  ℕ, zero, suc, ◌+◌, ◌-◌, ◌≤◌, ◌≡◌, refl, sym, ap, ◌∙◌, List, [], ◌∷◌, ◌++◌, map, Option, none,
  some, ok, arith, ◌==◌, list_eq, nat_eq, subst,
}
use bif.Base.Text.{Text}
use bif.Storage.Db.{Db, JournalEntry, OperationEntry, ItemEntry, find, find_operation, find_item}
use bif.Storage.Journal.{parse_generation, max_i64, max_seq, next_key, insert_change, append_change}

-- low + 1, …, low + n
abbrev pub interval : ℕ → ℕ → List ℕ
interval low zero = []
interval low (suc n) = suc low ∷ interval (suc low) n

abbrev pub positions : List JournalEntry → List ℕ
positions = map (λ e. e.change_seq)

pub record IsCovered (db : Db) : Type 0 where
  pub generation : parse_generation db.metadata.generation ≡ ok db.metadata.generation
  pub floor : db.metadata.retention_floor ≤ db.metadata.high_water
  pub fits : db.metadata.high_water ≤ max_i64
  pub allocator : db.allocator ≡ db.metadata.high_water
  pub covers :
      positions db.journal
      ≡ interval db.metadata.retention_floor (db.metadata.high_water - db.metadata.retention_floor)

interval-snoc : (low n : ℕ) → interval low n ++ (low + n + 1) ∷ [] ≡ interval low (suc n)
interval-snoc low zero = ground arith
interval-snoc low (suc n) = ground (arith, interval-snoc (suc low) n)

positions-append : (es fs : List JournalEntry) → positions (es ++ fs) ≡ positions es ++ positions fs
positions-append [] fs = refl
positions-append (e ∷ es) fs = ap (◌∷◌ e.change_seq) (positions-append es fs)

max_seq-le :
    (low n : ℕ) (es : List JournalEntry) → positions es ≡ interval low n → max_seq es ≤ low + n
unfolding max_seq
max_seq-le low n [] h = omega arith
max_seq-le low zero (e ∷ es) h = cc
max_seq-le low (suc n) (e ∷ es) h = ground (arith, max_seq-le (suc low) n es)

-- In a covered journal the next key is the position behind the high-water mark.
pub next_key-high_water : (db : Db) → IsCovered db → next_key db ≡ db.metadata.high_water + 1
next_key-high_water db h =
    let bound = max_seq-le _ _ db.journal h.covers in ground (arith, h.floor, h.allocator)

-- the row that `insert_change` adds
abbrev pub change_row : ℕ → OperationEntry → ItemEntry → JournalEntry
change_row seq o i = record {
  change_seq = seq;
  operation_id = o.operation_id;
  item_id = o.item_id;
  project_id = i.columns.project_id;
  item_revision = o.item_revision;
}

abbrev pub with_change : Db → ℕ → JournalEntry → Db
with_change db seq e = record db {
  metadata = record db.metadata { high_water = seq };
  journal = db.journal ++ e ∷ [];
  allocator = seq;
}

insert_change-ok :
    (o : OperationEntry) (i : ItemEntry) (db db' : Db) (seq : ℕ)
    → insert_change o i db ≡ ok (seq, db')
    → (seq ≡ next_key db) × (seq ≤ max_i64) × (db' ≡ with_change db seq (change_row seq o i))
unfolding insert_change
insert_change-ok o i db db' seq e = ground arith

find_operation-id :
    (id : Text) (os : List OperationEntry) (o : OperationEntry)
    → find (λ (x : OperationEntry). x.operation_id == id) os ≡ some o
    → o.operation_id ≡ id
unfolding find
find_operation-id id [] o h = cc
find_operation-id id (x ∷ os) o h = ground (arith, find_operation-id id os o)

-- A change that is appended to a covered journal is the change of its operation, as that is stored: its item, its
-- revision and the item's project. It takes the position behind the high-water mark, which moves
-- there with the allocator. Nothing else of the store changes.
pub append_change-ok :
    (operation_id : Text) (db db' : Db) (seq : ℕ)
    → IsCovered db
    → append_change operation_id db ≡ ok (seq, db')
    → (o : OperationEntry) × (i : ItemEntry) × (find_operation operation_id db ≡ some o)
      × (find_item o.item_id db ≡ some i)
      × (seq ≡ db.metadata.high_water + 1)
      × (seq ≤ max_i64)
      × (db' ≡ with_change db seq (change_row seq o i))
unfolding append_change
append_change-ok operation_id db db' seq h e = by_operation (find_operation operation_id db) refl
  where
    Goal : Type 0
    Goal =
        (o : OperationEntry) × (i : ItemEntry) × (find_operation operation_id db ≡ some o)
        × (find_item o.item_id db ≡ some i)
        × (seq ≡ db.metadata.high_water + 1)
        × (seq ≤ max_i64)
        × (db' ≡ with_change db seq (change_row seq o i))

    by_item :
        (o : OperationEntry) (i : Option ItemEntry)
        → find_operation operation_id db ≡ some o
        → find_item o.item_id db ≡ i
        → Goal
    by_item o none eo ei = absurd (ground arith)
    by_item o (some i) eo ei =
        let (at, fits, to) = insert_change-ok o i db db' seq (ground arith) in
        (o, i, eo, ei, at ∙ next_key-high_water db h, fits, to)

    by_operation : (o : Option OperationEntry) → find_operation operation_id db ≡ o → Goal
    by_operation none eo = absurd (ground arith)
    by_operation (some o) eo = by_item o (find_item o.item_id db) eo refl

with_change-IsCovered :
    (db : Db) (e : JournalEntry)
    → IsCovered db
    → e.change_seq ≡ db.metadata.high_water + 1
    → e.change_seq ≤ max_i64
    → IsCovered (with_change db e.change_seq e)
with_change-IsCovered db e h at fits = record {
  generation = h.generation;
  floor = omega (arith, h.floor);
  fits = fits;
  allocator = refl;
  covers =
      positions-append db.journal (e ∷ [])
      ∙ ap (λ ps. ps ++ e.change_seq ∷ []) h.covers
      ∙ ap (λ k. interval low n ++ k ∷ []) last
      ∙ interval-snoc low n
      ∙ ap (interval low) count;
}
  where
    low : ℕ
    low = db.metadata.retention_floor

    n : ℕ
    n = db.metadata.high_water - low

    last : e.change_seq ≡ low + n + 1
    last = omega (arith, h.floor, at)

    count : suc n ≡ e.change_seq - low
    count = omega (arith, h.floor, at)

-- Appending keeps the journal covered: no position is skipped, used twice or out of order.
pub append_change-IsCovered :
    (operation_id : Text) (db db' : Db) (seq : ℕ)
    → IsCovered db
    → append_change operation_id db ≡ ok (seq, db')
    → IsCovered db'
append_change-IsCovered operation_id db db' seq h e =
    let (o, i, _, _, at, fits, to) = append_change-ok operation_id db db' seq h e in
    subst IsCovered (sym to) (with_change-IsCovered db (change_row seq o i) h at fits)
