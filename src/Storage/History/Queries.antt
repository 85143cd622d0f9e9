-- ===== src/Storage/History/Queries.antt =====
-- src/storage.rs and src/storage/history_pages.rs: the complete history of an item, and a page of it.
use bif.Base.{
  ℕ, zero, suc, Bool, true, false, ◌&&◌, ◌||◌, List, [], ◌∷◌, Option, none, some, Result, ok, err,
  ◌>>=◌, map_err, if◌then◌else◌, ◌==◌, list_eq, nat_eq, ltb,
}
use bif.Base.Text.{Text}
use bif.Base.Int.{pos}
use bif.Domain.Item.{ItemId}
use bif.Domain.Item.Display.{display}
use bif.Application.Listing.{Ordering, then_with, cmp}
use bif.Application.ReadSemantics.{is_greater}
use bif.Application.History.{
  ItemHistoryEvent, ItemHistoryStoreError, ItemHistoryStore, HistoryReadKey, HistoryPageRequest,
}
use bif.Application.Projections.{ReadPage, row_limit}
use bif.Storage.Codec.{SqliteError}
use bif.Storage.Db.{Db, EventEntry, select, exists, find_item}
use bif.Storage.Engine.{execute}
use bif.Storage.Journal.{max_i64}
use bif.Storage.Listing.{cmp_int, is_equal}
use bif.Storage.History.{
  ItemHistoryStorageError, HistoryError, history_sqlite, history_row, history_event,
}

-- the requests to the engine; `step` advances a query by a row. In a transaction of the caller's
-- `begin_read` and `commit_read` do nothing, and nothing refuses them.
pub data Statement : Type 0 where
  begin_read read_exists read_rows commit_read : Statement
  step : ℕ → Statement

-- `ORDER BY item_revision ASC, event_index ASC`
abbrev pub cmp_rows : EventEntry → EventEntry → Ordering
cmp_rows a b = then_with (cmp_int a.item_revision b.item_revision) (cmp a.event_index b.event_index)

unfoldable pub insert_row : EventEntry → List EventEntry → List EventEntry
insert_row x [] = x ∷ []
insert_row x (y ∷ ys) =
    let later = y ∷ insert_row x ys in if is_greater (cmp_rows x y) then later else x ∷ y ∷ ys

unfoldable pub order_rows : List EventEntry → List EventEntry
unfolding insert_row
order_rows [] = []
order_rows (x ∷ xs) = insert_row x (order_rows xs)

abbrev pub is_of : Text → EventEntry → Bool
is_of item_id e = e.item_id == item_id

-- the `boundary` of `selection`, in each of its four forms
unfoldable pub boundary : Option HistoryReadKey → EventEntry → Bool
boundary none e = true
boundary (some after) e =
    let revision = cmp_int e.item_revision (pos after.item_revision) in
    if ltb max_i64 after.item_revision
    then false
    else if ltb max_i64 after.event_index
    then is_greater revision
    else is_greater revision || (is_equal revision && ltb after.event_index e.event_index)

abbrev pub take_rows : ℕ → List EventEntry → List EventEntry
take_rows zero rows = []
take_rows (suc n) [] = []
take_rows (suc n) (row ∷ rows) = row ∷ take_rows n rows

-- the rows that `selection` selects
unfoldable pub selection : HistoryPageRequest → Db → List EventEntry
unfolding order_rows boundary
selection request db = take_rows (row_limit request.page) (
    order_rows
      (select (λ e. is_of (display request.item_id) e && boundary request.page.after e) db.events))

abbrev pub is_cons : List EventEntry → Bool
is_cons [] = false
is_cons (row ∷ rows) = true

abbrev pub with_record : ItemHistoryEvent → ReadPage ItemHistoryEvent → ReadPage ItemHistoryEvent
with_record event page = record page { records = event ∷ page.records }

abbrev pub found : Bool → Result (Unit {0}) HistoryError
found true = ok tt
found false = err ItemHistoryStoreError.not_found

module _ (fault : Statement → Option SqliteError) where
  -- a request whose refusal is an error of the storage
  abbrev request_engine : {A : Type 0} → Statement → A → Result A HistoryError
  request_engine s a = map_err history_sqlite (execute fault s (ok a))

  -- `rows.map(…).collect()`
  unfoldable pub collect : ℕ → List EventEntry → Result (List ItemHistoryEvent) HistoryError
  collect i [] = request_engine (step i) []
  collect i (row ∷ rows) = do
    next ← request_engine (step i) row
    event ← history_event (history_row next)
    events ← collect (suc i) rows
    ok (event ∷ events)

  -- `ItemHistoryStore::item_history`
  unfoldable pub item_history : ItemId → Db → Result (List ItemHistoryEvent) HistoryError
  unfolding collect order_rows
  item_history item_id db = do
    exists ← request_engine read_exists (exists (find_item (display item_id) db))
    done ← found exists
    rows ← request_engine read_rows (order_rows (select (is_of (display item_id)) db.events))
    collect 0 rows

  -- the loop up to the limit, and the step past it that decodes nothing
  unfoldable pub read_records :
      ℕ → ℕ → List EventEntry → Result (ReadPage ItemHistoryEvent) HistoryError
  read_records i zero rows =
      request_engine (step i) (record { records = []; has_more = is_cons rows })
  read_records i (suc limit) [] =
      request_engine (step i) (record { records = []; has_more = false })
  read_records i (suc limit) (row ∷ rows) = do
    next ← request_engine (step i) row
    event ← history_event (history_row next)
    page ← read_records (suc i) limit rows
    ok (with_record event page)

  -- `ItemHistoryPageStore::select_history_page`
  unfoldable pub select_history_page :
      HistoryPageRequest → Db → Result (ReadPage ItemHistoryEvent) HistoryError
  unfolding read_records selection
  select_history_page request db = do
    begun ← request_engine begin_read tt
    exists ← request_engine read_exists (exists (find_item (display request.item_id) db))
    done ← found exists
    rows ← request_engine read_rows (selection request db)
    page ← read_records 0 request.page.limit rows
    request_engine commit_read page

  abbrev pub history_repository : Db → ItemHistoryStore ItemHistoryStorageError
  history_repository db = record {
    item_history = λ item_id. item_history item_id db;
    select_history_page = λ request. select_history_page request db;
  }
