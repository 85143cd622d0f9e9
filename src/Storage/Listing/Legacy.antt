-- ===== src/Storage/Listing/Legacy.antt =====
-- src/storage/projection_reads.rs: `legacy_page`, the pages of an item list that the store of
-- src/storage.rs answers by SQL, with its order by the segments of the key.
pub mod Rows
pub mod Pages
pub mod Walk
use bif.Base.{
  ℕ, ◌+◌, List, [], ◌∷◌, Option, none, some, Result, ok, err, ◌>>=◌, ◌>>◌, map_err, if◌then◌else◌,
  ltb, length,
}
use bif.Base.Text.{Text}
use bif.Base.Text.Strings.{split_once}
use bif.Domain.Identifier.{RequesterId}
use bif.Domain.Item.{Item}
use bif.Domain.View.{NamedView}
use bif.Application.Listing.{
  Ordering, less, equal, greater, ItemListFilters, ItemListOrdering, Pagination, ItemPage, sort_by,
  skip, take,
}
use bif.Application.ReadSemantics.{
  ItemSortField, priority_rank_field, captured_at_field, requester_field, project_field,
  sequence_field, ItemSortTerm, sort_spec, directed,
}
use bif.Application.Reads.{NamedViewStore}
use bif.Storage.Codec.{
  SqliteError, ItemStorageError, sqlite, invalid_persisted_data, disappeared, decode_item,
}
use bif.Storage.Db.{Db, ItemEntry, find_provenance}
use bif.Storage.Engine.{execute}
use bif.Storage.Journal.{max_i64}
use bif.Storage.Mutate.{criteria_of, joined}
use bif.Storage.Mutate as M
use bif.Storage.Listing.{Value, text, coordinate, cmp_value}
use bif.Storage.Listing.Selected.{chosen, select_items}

-- the requests of `legacy_page`; the rows are stepped through with the query
pub data Request : Type 0 where
  begin query criteria commit : Request

-- `substr(t, 1, instr(t, ':') - 1)`, which is empty where there is no colon
unfoldable pub segment : Text → Text
unfolding split_once
segment t = elim (split_once b':' t) [ none ↦ [] | some (front, rest) ↦ front ]

-- `substr(t, instr(t, ':') + 1)`
unfoldable pub behind : Text → Text
unfolding split_once
behind t = elim (split_once b':' t) [ none ↦ t | some (front, rest) ↦ rest ]

unfoldable pub legacy_coordinate : ItemSortField → ItemEntry → Value
unfolding segment behind
legacy_coordinate requester_field e = text (segment e.item_id)
legacy_coordinate project_field e = text (segment (behind e.item_id))
legacy_coordinate priority_rank_field e = coordinate priority_rank_field e.columns
legacy_coordinate captured_at_field e = coordinate captured_at_field e.columns
legacy_coordinate sequence_field e = coordinate sequence_field e.columns

-- ORDER BY the terms
abbrev pub compare_rows : List ItemSortTerm → ItemEntry → ItemEntry → Ordering
compare_rows [] left right = equal
compare_rows (term ∷ terms) left right =
    let later = compare_rows terms left right in
    elim (directed term.direction
      (cmp_value (legacy_coordinate term.field left) (legacy_coordinate term.field right))) [
        | equal ↦ later
        | less ↦ less
        | greater ↦ greater
      ]

-- `PrimaryRow::legacy_item`, with the LEFT JOIN of the provenance and the criteria of `load_criteria`
unfoldable pub legacy_item : Db → ItemEntry → Result Item ItemStorageError
legacy_item db e = elim (joined (some e) (find_provenance e.item_id db)) [
  | none ↦ err (invalid_persisted_data e.item_id disappeared)
  | some row ↦ decode_item e.item_id row (criteria_of e.item_id db)
]

unfoldable pub legacy_items : Db → List ItemEntry → Result (List Item) ItemStorageError
unfolding legacy_item
legacy_items db [] = ok []
legacy_items db (e ∷ es) = do item ← legacy_item db e; items ← legacy_items db es; ok (item ∷ items)

-- the rows of `legacy_page_query`, up to its LIMIT; `scan` arranges the rows that the order leaves tied
unfoldable pub legacy_rows :
    (List ItemEntry → List ItemEntry)
    → NamedView
    → RequesterId
    → ItemListFilters
    → ItemListOrdering
    → Pagination
    → Db
    → List ItemEntry
legacy_rows scan view configured_requester filters ordering pagination db =
    take (pagination.limit + 1) (
      skip pagination.offset (
        sort_by (compare_rows (sort_spec ordering))
          (scan (chosen view configured_requester filters db))))

-- `load_criteria` asks for those of a page that is not empty
abbrev pub criteria_request :
    (Request → Option SqliteError) → List ItemEntry → Result (Unit {0}) ItemStorageError
criteria_request fault [] = ok tt
criteria_request fault (row ∷ rows) = map_err sqlite (execute fault criteria (ok tt))

-- an offset above the INTEGERs has an empty page
unfoldable pub legacy_page :
    (Request → Option SqliteError)
    → (List ItemEntry → List ItemEntry)
    → NamedView
    → RequesterId
    → ItemListFilters
    → ItemListOrdering
    → Pagination
    → Db
    → Result ItemPage ItemStorageError
unfolding legacy_rows legacy_items
legacy_page fault scan view configured_requester filters ordering pagination db =
    if ltb max_i64 pagination.offset then ok (record { items = []; next_offset = none }) else (do
      let rows = legacy_rows scan view configured_requester filters ordering pagination db
      _ ← map_err sqlite (execute fault begin (ok tt))
      _ ← map_err sqlite (execute fault query (ok tt))
      _ ← criteria_request fault (take pagination.limit rows)
      items ← legacy_items db (take pagination.limit rows)
      _ ← map_err sqlite (execute fault commit (ok tt))
      ok (record {
        items = items;
        next_offset =
            if ltb pagination.limit (length rows)
            then some (pagination.offset + pagination.limit)
            else none;
      }))

-- `ItemRepository` as a `NamedViewStore`; each page may be scanned in its own way
abbrev pub item_repository :
    (M.Statement → Option SqliteError)
    → Option SqliteError
    → (Request → Option SqliteError)
    → (Pagination → List ItemEntry → List ItemEntry)
    → (List ItemEntry → List ItemEntry)
    → Db
    → NamedViewStore ItemStorageError
item_repository fault select_fault page_fault page_scan scan db = record {
  select_items =
      λ view requester filters. select_items fault select_fault scan view requester filters db;
  select_item_page = λ view requester filters ordering pagination.
      legacy_page page_fault (page_scan pagination) view requester filters ordering pagination db;
}
