-- ===== src/Storage/Listing/Selected.antt =====
-- src/storage.rs: `select_items` on the tables, from the rows to the items.
use bif.Base.{
  ◌≡◌, refl, sym, ap, ◌∙◌, Bool, List, [], ◌∷◌, Option, none, some, Result, ok, err, ◌>>=◌, arith,
  if◌then◌else◌, map, Bool-cases, inl, inr, list_eq, nat_eq,
}
use mathlib.Core.Path.{ap₂}
use mathlib.Core.List.{Permᴰ}
use bif.Base.Text.{Text}
use bif.Domain.Identifier.{RequesterId, upper}
use bif.Domain.Identifier.Canonical.{IsCanonical}
use bif.Domain.Item.{Item}
use bif.Domain.Item.Display.{display}
use bif.Domain.View.{NamedView}
use bif.Application.Listing.{ItemListFilters}
use bif.Application.ReadSemantics.{new_filters}
use bif.Storage.Codec.{
  SqliteError, ItemStorageError, sqlite, invalid_persisted_data, disappeared, item_columns,
}
use bif.Storage.Codec.RoundTrip.{IsStorable}
use bif.Storage.Db.{Db, ItemEntry}
use bif.Storage.Mutate.{Statement, load_item, criteria_of}
use bif.Storage.Mutate.Stored.{IsStored, no_fault, load_item-IsStored}
use bif.Storage.Listing.{selects}
use bif.Storage.Listing.Queries.Members.{IsFilter, member, member-selects}

abbrev pub keep {ℓ} : {A : Type ℓ} → (A → Bool) → List A → List A
keep p [] = []
keep p (x ∷ xs) = let rest = keep p xs in if p x then x ∷ rest else rest

abbrev pub found : Text → Option Item → Result Item ItemStorageError
found item_id none = err (invalid_persisted_data item_id disappeared)
found item_id (some item) = ok item

-- the `map` over the selected ids
unfoldable pub load_items :
    (Statement → Option SqliteError) → List Text → Db → Result (List Item) ItemStorageError
load_items fault [] db = ok []
load_items fault (id ∷ ids) db = do
  stored ← load_item fault id db
  item ← found id stored
  items ← load_items fault ids db
  ok (item ∷ items)

-- the WHERE clause at a row of the tables
abbrev pub is_chosen : NamedView → RequesterId → ItemListFilters → Db → ItemEntry → Bool
is_chosen view configured_requester filters db e =
    selects view configured_requester filters e.columns (criteria_of e.item_id db)

abbrev pub chosen : NamedView → RequesterId → ItemListFilters → Db → List ItemEntry
chosen view configured_requester filters db =
    keep (is_chosen view configured_requester filters db) db.items

-- `select_fault` is what refuses the query itself. The query has no ORDER BY: `scan` is the order in
-- which the engine answers the rows, those of an index as a rule.
unfoldable pub select_items :
    (Statement → Option SqliteError)
    → Option SqliteError
    → (List ItemEntry → List ItemEntry)
    → NamedView
    → RequesterId
    → ItemListFilters
    → Db
    → Result (List Item) ItemStorageError
unfolding load_items
select_items fault (some e) scan view configured_requester filters db = err (sqlite e)
select_items fault none scan view configured_requester filters db =
    load_items fault
      (map (λ (e : ItemEntry). e.item_id) (scan (chosen view configured_requester filters db))) db

-- a query answers each row once, in any order
abbrev pub IsArrangement : (List ItemEntry → List ItemEntry) → Type 0
IsArrangement scan = (rows : List ItemEntry) → Permᴰ (scan rows) rows

-- the rows are those of the items, which the tables hold whole
abbrev pub Holds : Db → List ItemEntry → List Item → Type 0
Holds db [] [] = Unit
Holds db (e ∷ es) (item ∷ items) =
    ((e ≡ record { item_id = display item.id; columns = item_columns item })
      × IsStored db item
      × IsStorable item)
    × Holds db es items
Holds db _ _ = ⊥

-- rows in another order hold the items in another order
pub Holds-Permᴰ :
    (db : Db) (es rows : List ItemEntry) (items : List Item)
    → Permᴰ es rows
    → Holds db rows items
    → (listed : List Item) × Holds db es listed × Permᴰ listed items
Holds-Permᴰ db _ _ [] Permᴰ.nil h = ([], tt, Permᴰ.nil)
Holds-Permᴰ db _ _ (x ∷ items) (Permᴰ.cons e p) (held, h) =
    let (listed, rest, arranged) = Holds-Permᴰ db _ _ items p h in
    (x ∷ listed, ((e ∙ held.0, held.1, held.2), rest), Permᴰ.cons refl arranged)
Holds-Permᴰ db _ _ (x ∷ y ∷ items) (Permᴰ.swap e d) (first, (second, h)) = (
  y ∷ x ∷ items,
  ((e ∙ second.0, second.1, second.2), ((d ∙ first.0, first.1, first.2), h)),
  Permᴰ.swap refl refl,
)
Holds-Permᴰ db es rows items (Permᴰ.trans p q) h =
    let (middle, held, arranged) = Holds-Permᴰ db _ rows items q h in
    let (listed, rest, more) = Holds-Permᴰ db es _ middle p held in
    (listed, rest, Permᴰ.trans more arranged)
Holds-Permᴰ db _ _ (x ∷ items) Permᴰ.nil h = elim h [ ]
Holds-Permᴰ db _ _ [] (Permᴰ.cons e p) h = elim h [ ]
Holds-Permᴰ db _ _ [] (Permᴰ.swap e d) h = elim h [ ]
Holds-Permᴰ db _ _ (x ∷ []) (Permᴰ.swap e d) h = elim h.1 [ ]

-- the rows that are chosen hold the members of the query
pub chosen-Holds :
    (view : NamedView) (r : RequesterId) (filters : ItemListFilters) (db : Db) (es : List ItemEntry)
    (items : List Item)
    → IsCanonical upper r.as_str
    → IsFilter filters
    → Holds db es items
    → Holds db
        (keep (is_chosen view r filters db) es)
        (keep (member (new_filters view r filters)) items)
chosen-Holds view r filters db [] [] c f h = tt
chosen-Holds view r filters db (e ∷ es) (item ∷ items) c f (held, h) =
    let rest = chosen-Holds view r filters db es items c f h in
    let id = ap (λ (x : ItemEntry). x.item_id) held.0 in
    let columns = ap (λ (x : ItemEntry). x.columns) held.0 in
    let criteria : criteria_of e.item_id db ≡ item.content.acceptance_criteria =
      ap (λ t. criteria_of t db) id ∙ held.1.criteria in
    let same : is_chosen view r filters db e ≡ member (new_filters view r filters) item =
      ap₂ (selects view r filters) columns criteria
      ∙ sym (member-selects view r filters item c f) in
    elim (Bool-cases (member (new_filters view r filters) item)) [
      | inl hit ↦ rw (same ∙ hit, hit) (held, rest)
      | inr miss ↦ rw (same ∙ miss, miss) rest
    ]
chosen-Holds view r filters db [] (item ∷ items) c f h = elim h [ ]
chosen-Holds view r filters db (e ∷ es) [] c f h = elim h [ ]

-- rows that hold items are loaded as these
pub load_items-Holds :
    (db : Db) (es : List ItemEntry) (items : List Item)
    → Holds db es items
    → load_items no_fault (map (λ (e : ItemEntry). e.item_id) es) db ≡ ok items
unfolding load_items
load_items-Holds db [] [] h = refl
load_items-Holds db (e ∷ es) (item ∷ items) ((row, stored, storable), h) =
    let rest = load_items-Holds db es items h in
    let loaded = load_item-IsStored db item stored storable in
    let known : load_item no_fault e.item_id db ≡ ok (some item) =
      ap (λ (x : ItemEntry). load_item no_fault x.item_id db) row ∙ loaded in
    ground arith
load_items-Holds db [] (item ∷ items) h = elim h [ ]
load_items-Holds db (e ∷ es) [] h = elim h [ ]

-- On tables whose rows hold the items whole, an item list that the engine answers has the members of
-- the query, each once and loaded with its criteria and provenance, in whatever order the engine
-- answers the rows: for every view and all filters, if the configured requester is canonical and a
-- text filter is not blank.
pub select_items-members :
    (scan : List ItemEntry → List ItemEntry) (view : NamedView) (r : RequesterId)
    (filters : ItemListFilters) (db : Db) (items : List Item)
    → IsArrangement scan
    → IsCanonical upper r.as_str
    → IsFilter filters
    → Holds db db.items items
    → (listed : List Item) × (select_items no_fault none scan view r filters db ≡ ok listed)
      × Permᴰ listed (keep (member (new_filters view r filters)) items)
unfolding select_items
select_items-members scan view r filters db items arranges c f h =
    let rows = chosen view r filters db in
    let held = chosen-Holds view r filters db db.items items c f h in
    let (listed, read, arranged) = Holds-Permᴰ db (scan rows) rows _ (arranges rows) held in
    (listed, load_items-Holds db (scan rows) listed read, arranged)
