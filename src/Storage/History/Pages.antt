-- ===== src/Storage/History/Pages.antt =====
-- A page of an item's history against its complete history.
pub mod Behind
use bif.Base.{
  subst, ℕ, zero, suc, ◌+◌, ◌≤◌, ◌≡◌, refl, sym, ap, ◌∙◌, Bool, true, false, ◌&&◌, ◌||◌, List, [],
  ◌∷◌, Option, none, some, Result, ok, ok_or, if◌then◌else◌, ◌==◌, list_eq, nat_eq, ltb, length,
  All, arith, Bool-cases, inl, inr, >>=-eq-ok,
}
use bif.Base.Int.{ℤ, pos, negsuc, try_u64}
use bif.Domain.Item.{ItemId, new_revision}
use bif.Domain.Item.Display.{display}
use bif.Application.ReadSemantics.{is_greater}
use bif.Application.History.{ItemHistoryEvent, HistoryReadKey, HistoryPageRequest}
use bif.Storage.Codec.{SqliteError}
use bif.Storage.Db.{Db, EventEntry, select, exists, find_item}
use bif.Storage.Journal.{max_i64}
use bif.Storage.Listing.{cmp_int}
use bif.Storage.History.{
  HistoryError, HistoryRow, history_row, history_event, parse_revision, parse_history_event_type,
  parse_history_value, parse_actor_kind, parse_execution, parse_schema_version,
}
use bif.Storage.History.Queries.{
  Statement, cmp_rows, insert_row, order_rows, is_of, boundary, take_rows, selection, collect,
  item_history, read_records, select_history_page, found,
}
pub use bif.Storage.History.Pages.Behind.{
  no_fault, is_later, behind, take, IsInteger, ok-injective, collect-cons, collect-shift,
}
use bif.Storage.History.Pages.Behind.{select-order_rows, collect-boundary}

read_records-collect :
    (i j limit : ℕ) (rows : List EventEntry) (events : List ItemHistoryEvent)
    → collect no_fault i rows ≡ ok events
    → read_records no_fault j limit (take_rows (suc limit) rows)
      ≡ ok (record { records = take limit events; has_more = ltb limit (length events) })
unfolding read_records
read_records-collect i j zero [] events h = unfold collect in rw (sym (ok-injective h)) refl
read_records-collect i j zero (row ∷ rows) events h =
    let (event, rest, decoded, later, same) = collect-cons i row rows events h in
    rw same (ground arith)
read_records-collect i j (suc limit) [] events h =
    unfold collect in rw (sym (ok-injective h)) (ground arith)
read_records-collect i j (suc limit) (row ∷ rows) events h =
    let (event, rest, decoded, later, same) = collect-cons i row rows events h in
    rw (same, decoded, read_records-collect (suc i) (suc j) limit rows rest later) (ground arith)

select-IsInteger :
    (p : EventEntry → Bool) (rows : List EventEntry)
    → All IsInteger rows
    → All IsInteger (select p rows)
unfolding select
select-IsInteger p [] a = tt
select-IsInteger p (row ∷ rows) a = ground (arith, select-IsInteger p rows a.1)

insert_row-IsInteger :
    (x : EventEntry) (rows : List EventEntry)
    → IsInteger x
    → All IsInteger rows
    → All IsInteger (insert_row x rows)
unfolding insert_row
insert_row-IsInteger x [] i a = (i, tt)
insert_row-IsInteger x (y ∷ ys) i a = ground (arith, insert_row-IsInteger x ys i a.1)

order_rows-IsInteger :
    (rows : List EventEntry) → All IsInteger rows → All IsInteger (order_rows rows)
unfolding order_rows
order_rows-IsInteger [] a = tt
order_rows-IsInteger (row ∷ rows) a =
    insert_row-IsInteger row (order_rows rows) a.0 (order_rows-IsInteger rows a.1)

found-ok : (b : Bool) {u : Unit {0}} → found b ≡ ok u → b ≡ true
found-ok true h = refl
found-ok false h = cc

-- what a complete history has read
pub item_history-collect :
    (item_id : ItemId) (db : Db) (events : List ItemHistoryEvent)
    → item_history no_fault item_id db ≡ ok events
    → (exists (find_item (display item_id) db) ≡ true)
      × (collect no_fault 0 (order_rows (select (is_of (display item_id)) db.events)) ≡ ok events)
unfolding item_history
item_history-collect item_id db events h =
    let (_, is, rest) = >>=-eq-ok (found (exists (find_item (display item_id) db))) _ h in
    (found-ok (exists (find_item (display item_id) db)) is, rest)

-- Where the complete history of an item can be read, a page of it is what stands behind the
-- boundary, in order and up to the limit, and tells exactly whether more follows; also where the
-- boundary fits no INTEGER. The stored numbers do, and no request to the engine is refused.
pub select_history_page-item_history :
    (request : HistoryPageRequest) (db : Db) (events : List ItemHistoryEvent)
    → All IsInteger db.events
    → item_history no_fault request.item_id db ≡ ok events
    → let rest = behind request.page.after events in
      select_history_page no_fault request db
      ≡ ok (record {
        records = take request.page.limit rest;
        has_more = ltb request.page.limit (length rest);
      })
unfolding select_history_page selection
select_history_page-item_history request db events a h =
    let (is, all) = item_history-collect request.item_id db events h in
    let own = is_of (display request.item_id) in
    let ordered = select-order_rows own request.page.after db.events in
    let integers = order_rows-IsInteger (select own db.events) (select-IsInteger own db.events a) in
    let bounded =
      collect-boundary request.page.after (order_rows (select own db.events)) events integers all in
    let limit = request.page.limit in
    let one : limit + 1 ≡ suc limit = omega arith in
    let page =
      read_records-collect 0 0 limit
        (order_rows (select (λ e. own e && boundary request.page.after e) db.events))
        (behind request.page.after events) (ap (collect no_fault 0) ordered ∙ bounded) in
    rw (is, one, page) refl
