-- ===== src/Storage/Mutate/Stored.antt =====
-- An item as the tables hold it, and that a mutation keeps it so.
use bif.Base.{
  ℕ, ◌≡◌, sym, ap, ◌∙◌, List, [], ◌∷◌, Option, none, some, ok, arith, list_eq, nat_eq, subst,
}
use bif.Base.Text.{Text}
use bif.Domain.Item.{Item, ItemId, Timestamp, set_updated_at}
use bif.Domain.Item.Display.{display}
use bif.Domain.Mutation.{DomainEvent, apply_mutation}
use bif.Domain.Mutation.Laws.{SameRecord, apply_mutation-Evolves}
use bif.Storage.Codec.{SqliteError, ItemColumns, item_columns, provenance_columns}
use bif.Storage.Codec.RoundTrip.{IsStorable, decode_item-item_row}
use bif.Storage.Db.{Db, ItemEntry, find, update, is_item, find_item, find_provenance}
use bif.Storage.Mutate.{Statement, Call, criteria_of, load_item, item_update}
use bif.Storage.Mutate.Commit.{committed}

pub record IsStored (db : Db) (item : Item) : Type 0 where
  pub row :
      find_item (display item.id) db
      ≡ some (record { item_id = display item.id; columns = item_columns item })
  pub provenance :
      find_provenance (display item.id) db
      ≡ some (record { item_id = display item.id; columns = provenance_columns item.provenance })
  pub criteria : criteria_of (display item.id) db ≡ item.content.acceptance_criteria

-- no statement is refused
abbrev pub no_fault : Statement → Option SqliteError
no_fault s = none

-- A stored item is loaded as it is.
pub load_item-IsStored :
    (db : Db) (item : Item)
    → IsStored db item
    → IsStorable item
    → load_item no_fault (display item.id) db ≡ ok (some item)
unfolding load_item
load_item-IsStored db item s k =
    ground (arith, s.row, s.provenance, s.criteria, decode_item-item_row item k)

-- what is loaded despite refusals is loaded without
pub load_item-no_fault :
    (fault : Statement → Option SqliteError) (item_id : Text) (db : Db) (stored : Option Item)
    → load_item fault item_id db ≡ ok stored
    → load_item no_fault item_id db ≡ ok stored
unfolding load_item
load_item-no_fault fault item_id db stored h = ground arith

-- whatever is loaded of a stored item is the item
pub load_item-same :
    (fault : Statement → Option SqliteError) (id : ItemId) (db : Db) (item loaded : Item)
    → IsStored db item
    → IsStorable item
    → item.id ≡ id
    → load_item fault (display id) db ≡ ok (some loaded)
    → loaded ≡ item
load_item-same fault id db item loaded s k own h = ground (
  arith,
  load_item-no_fault fault (display id) db (some loaded) h,
  load_item-IsStored db item s k,
)

pub find-updated :
    (id : Text) (f : ItemColumns → ItemColumns) (es : List ItemEntry) (i : ItemEntry)
    → find (is_item id) es ≡ some i
    → find (is_item id) (update (is_item id) (λ e. record e { columns = f e.columns }) es)
      ≡ some (record i { columns = f i.columns })
unfolding find update
find-updated id f [] i h = absurd (ground arith)
find-updated id f (e ∷ es) i h = ground (arith, find-updated id f es i)

item_update-columns :
    (t : Timestamp) (item planned : Item)
    → SameRecord planned item
    → item_update (set_updated_at t planned) t (item_columns item)
      ≡ item_columns (set_updated_at t planned)
unfolding item_update item_columns set_updated_at
item_update-columns t item planned s = ground (arith, s.id, s.content, s.captured_at)

-- A committed mutation of a stored item stores the mutated item.
pub committed-IsStored :
    (call : Call) (item planned : Item) (events : List DomainEvent) (seq : ℕ) (project_id : Text)
    (db : Db)
    → IsStored db item
    → apply_mutation call.request.mutation item ≡ (planned, ok events)
    → IsStored
        (committed call (set_updated_at call.occurred_at planned) events seq project_id db)
        (set_updated_at call.occurred_at planned)
unfolding set_updated_at
committed-IsStored call item planned events seq project_id db s h = record {
  row = subst Row (sym same.id) (
      find-updated (display item.id) (item_update new call.occurred_at) db.items _ s.row
      ∙ ap (λ cs. some (record { item_id = display item.id; columns = cs }))
          (item_update-columns call.occurred_at item planned same));
  provenance = ground (arith, s.provenance, same.id, same.provenance);
  criteria = ground (arith, s.criteria, same.id, same.content);
}
  where
    same : SameRecord planned item
    same = (apply_mutation-Evolves call.request.mutation item planned events h).same

    new : Item
    new = set_updated_at call.occurred_at planned

    Row : ItemId → Type 0
    Row id =
        find (is_item (display id)) (
          update (is_item (display id))
            (λ e. record e { columns = item_update new call.occurred_at e.columns }) db.items)
        ≡ some (record { item_id = display id; columns = item_columns new })
