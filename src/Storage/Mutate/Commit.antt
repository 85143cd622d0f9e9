-- ===== src/Storage/Mutate/Commit.antt =====
-- What a mutation that commits has written.
use bif.Base.{
  ℕ, suc, ◌+◌, ◌≡◌, refl, ap, ◌∙◌, false, List, [], ◌∷◌, ◌++◌, Option, none, some, Result, ok,
  arith, ◌==◌, list_eq, nat_eq, >>=-eq-ok, append_assoc, append-nil, subst,
}
use bif.Base.Text.{Text}
use bif.Base.Int.{as_i64}
use bif.Domain.Item.{Item, set_updated_at}
use bif.Domain.Item.Display.{display}
use bif.Domain.Mutation.{DomainEvent}
use bif.Application.Request.{MutationResult, MutationStoreError}
use bif.Storage.Codec.{SqliteError}
use bif.Storage.Db.{
  Db, EventEntry, ItemEntry, OperationEntry, update, is_item, update_item, insert_operation,
  insert_event, insert_receipt, find_item, find_operation,
}
use bif.Storage.Events.{EventContext, event_entry}
use bif.Storage.Journal.{append_change}
use bif.Storage.Journal.Coverage.{IsCovered, append_change-ok, append_change-IsCovered}
use bif.Storage.Db.Inserts.{
  insert_event-ok, update_item-ok, insert_receipt-ok, insert_operation-ok, find-append, find-update,
}
use bif.Storage.Engine.{execute, execute-ok, step-ok, bind-ok}
use bif.Storage.Mutate.{
  Statement, Call, insert_events, write_changes, write_event, context, operation_entry,
  receipt_entry, item_update,
}

-- the rows of a mutation's events, numbered on from an index
abbrev pub event_entries : EventContext → ℕ → List DomainEvent → List Text → List EventEntry
event_entries c index (event ∷ events) (event_id ∷ ids) =
    event_entry c event_id index event ∷ event_entries c (suc index) events ids
event_entries c index _ _ = []

insert_events-ok :
    (fault : Statement → Option SqliteError) (c : EventContext) (index : ℕ)
    (events : List DomainEvent) (ids : List Text) (db db' : Db)
    → insert_events fault c index events ids db ≡ ok db'
    → db' ≡ record db { events = db.events ++ event_entries c index events ids }
unfolding insert_events insert_event
insert_events-ok fault c index [] ids db db' h = ground (arith, append-nil db.events)
insert_events-ok fault c index (e ∷ events) [] db db' h = ground (arith, append-nil db.events)
insert_events-ok fault c index (e ∷ events) (event_id ∷ ids) db db' h =
    let (next, first, rest) =
      >>=-eq-ok
        (execute fault (write_event index) (insert_event (event_entry c event_id index e) db)) _
        h in
    let at = insert_event-ok (event_entry c event_id index e) db next (
      execute-ok fault (write_event index) (insert_event (event_entry c event_id index e) db) next
        first) in
    let back = insert_events-ok fault c (suc index) events ids next db' rest in
    ground (
      arith,
      append_assoc db.events (event_entry c event_id index e ∷ [])
          (event_entries c (suc index) events ids),
    )

-- The store after a mutation of an item, whose change takes a position in the journal under a
-- project.
abbrev pub committed : Call → Item → List DomainEvent → ℕ → Text → Db → Db
committed call item events seq project_id db = record db {
  items =
      update (is_item (display item.id))
        (λ e. record e { columns = item_update item call.occurred_at e.columns }) db.items;
  operations = db.operations ++ operation_entry call item ∷ [];
  events = db.events ++ event_entries (context call item) 0 events call.identity.event_ids;
  receipts = db.receipts ++ receipt_entry call item events ∷ [];
  metadata = record db.metadata { high_water = seq };
  journal =
      db.journal
      ++ record {
        change_seq = seq;
        operation_id = call.identity.operation_id;
        item_id = display item.id;
        project_id = project_id;
        item_revision = as_i64 item.revision;
      }
        ∷ [];
  allocator = seq;
}

-- the store before its change is journaled
abbrev written : Call → Item → List DomainEvent → Db → Db
written call item events db = record db {
  items =
      update (is_item (display item.id))
        (λ e. record e { columns = item_update item call.occurred_at e.columns }) db.items;
  operations = db.operations ++ operation_entry call item ∷ [];
  events = db.events ++ event_entries (context call item) 0 events call.identity.event_ids;
  receipts = db.receipts ++ receipt_entry call item events ∷ [];
}

written-IsCovered :
    (call : Call) (item : Item) (events : List DomainEvent) (db : Db)
    → IsCovered db
    → IsCovered (written call item events db)
written-IsCovered call item events db c = record {
  generation = c.generation;
  floor = c.floor;
  fits = c.fits;
  allocator = c.allocator;
  covers = c.covers;
}

abbrev pub Wrote : Call → Item → List DomainEvent → Db → MutationResult → Option Db → Type 0
Wrote call item events db result next =
    (i : ItemEntry) × (find_item (display item.id) db ≡ some i)
    × (result ≡ record { item = item; replayed = false })
    × (next
        ≡ some (committed call item events (db.metadata.high_water + 1) i.columns.project_id db))
    × IsCovered (committed call item events (db.metadata.high_water + 1) i.columns.project_id db)

-- the change of the operation that has just been inserted
append_change-written :
    (call : Call) (item : Item) (events : List DomainEvent) (db next : Db) (seq : ℕ)
    → IsCovered db
    → find_operation call.identity.operation_id db ≡ none
    → append_change call.identity.operation_id (written call item events db) ≡ ok (seq, next)
    → (i : ItemEntry) × (find_item (display item.id) db ≡ some i)
      × (next ≡ committed call item events (db.metadata.high_water + 1) i.columns.project_id db)
unfolding item_update
append_change-written call item events db next seq c fresh h =
    let (o, i, at, joined, number, _, to) =
      append_change-ok call.identity.operation_id (written call item events db) next seq
        (written-IsCovered call item events db c) h in
    let own =
      find-append (λ (x : OperationEntry). x.operation_id == call.identity.operation_id)
        db.operations (operation_entry call item) fresh (ground arith) in
    let same : o ≡ operation_entry call item = ground arith in
    let (old, was, is) =
      find-update (display item.id) (item_update item call.occurred_at) (display item.id) db.items i
        (ground arith) in
    (old, was, ground arith)

-- the four tables after the statements on them
statements-written :
    (fault : Statement → Option SqliteError) (call : Call) (item : Item) (events : List DomainEvent)
    (db d1 d2 d3 d4 : Db)
    → update_item (display item.id) (item_update item call.occurred_at) db ≡ ok d1
    → insert_operation (operation_entry call item) d1 ≡ ok d2
    → insert_events fault (context call item) 0 events call.identity.event_ids d2 ≡ ok d3
    → insert_receipt (receipt_entry call item events) d3 ≡ ok d4
    → (d4 ≡ written call item events db) × (find_operation call.identity.operation_id db ≡ none)
statements-written fault call item events db d1 d2 d3 d4 h1 h2 h3 h4 =
    let e1 = update_item-ok (display item.id) (item_update item call.occurred_at) db d1 h1 in
    let (e2, fresh) = insert_operation-ok (operation_entry call item) d1 d2 h2 in
    let e3 = insert_events-ok fault (context call item) 0 events call.identity.event_ids d2 d3 h3 in
    let e4 = insert_receipt-ok (receipt_entry call item events) d3 d4 h4 in
    (ground arith, ground arith)

-- `commit` and the answer
last :
    (fault : Statement → Option SqliteError) (item : Item) (d5 d6 : Db) (result : MutationResult)
    (next : Option Db)
    → (a : Result Db SqliteError) → ok d5 ≡ a
    → a ≡ ok d6
    → (b : Result (MutationResult × Option Db) (MutationStoreError SqliteError))
    → b ≡ ok (record { item = item; replayed = false }, some d6)
    → b ≡ ok (result, next)
    → (result ≡ record { item = item; replayed = false }) × (next ≡ some d5)
last fault item d5 d6 result next a g h b j k = (ground arith, ground arith)

pub write_changes-ok :
    (fault : Statement → Option SqliteError) (call : Call) (planned : Item)
    (events : List DomainEvent) (db : Db) (result : MutationResult) (next : Option Db)
    → IsCovered db
    → write_changes fault call planned events db ≡ ok (result, next)
    → Wrote call (set_updated_at call.occurred_at planned) events db result next
unfolding write_changes
write_changes-ok fault call planned events db result next c h =
    let item = set_updated_at call.occurred_at planned in
    let (d1, h1, k1) = step-ok fault _ _ _ _ (result, next) h in
    let (d2, h2, k2) = step-ok fault _ _ _ _ (result, next) k1 in
    let (d3, h3, k3) = bind-ok _ _ _ (result, next) k2 in
    let (d4, h4, k4) = step-ok fault _ _ _ _ (result, next) k3 in
    let (_, _, k5) = step-ok fault _ _ _ _ (result, next) k4 in
    let ((seq, d5), h5, k6) = bind-ok _ _ _ (result, next) k5 in
    let (d6, h6, k7) = step-ok fault _ _ _ _ (result, next) k6 in
    let (all_written, fresh) =
      statements-written fault call item events db d1 d2 d3 d4 h1 h2 h3 h4 in
    let journaled =
      subst (λ d. append_change call.identity.operation_id d ≡ ok (seq, d5)) all_written h5 in
    let (i, at, to) = append_change-written call item events db d5 seq c fresh journaled in
    let covered =
      append_change-IsCovered call.identity.operation_id (written call item events db) d5 seq
        (written-IsCovered call item events db c) journaled in
    let (one, two) =
      last fault item d5 d6 result next (ok d5) refl h6
        (ok (record { item = item; replayed = false }, some d6)) refl k7 in
    (i, at, one, two ∙ ap some to, subst IsCovered to covered)
