-- ===== src/Storage/Listing/Legacy/Walk.antt =====
-- Following the pages of an item list on the store of src/storage.rs.
use bif.Base.{ℕ, suc, ◌<◌, ◌≤◌, List, length, Option}
use bif.Domain.Identifier.{RequesterId, upper}
use bif.Domain.Identifier.Canonical.{IsCanonical}
use bif.Domain.Item.{Item}
use bif.Domain.View.{NamedView}
use bif.Domain.View as V
use bif.Application.Authorize.{AuthorizationRequest}
use bif.Application.Listing.{ItemListFilters, newest_first, next, Pagination, order_items}
use bif.Application.Listing.Sorting.{Identified}
use bif.Application.Reads.{list_item_page, next_item_page}
use bif.Application.Reads.Walk.{Reads, follow, pages_complete}
use bif.Storage.Codec.{SqliteError}
use bif.Storage.Db.{Db, ItemEntry}
use bif.Storage.Journal.{max_i64}
use bif.Storage.Mutate as M
use bif.Storage.Listing.Queries.Members.{IsFilter}
use bif.Storage.Listing.Selected.{Holds, IsArrangement}
use bif.Storage.Listing.Legacy.{item_repository}
use bif.Storage.Listing.Legacy.Pages.{quiet, members, legacy_page-item_page}

-- A reader who starts at offset 0 and follows the next offsets of `list_item_page`, or of
-- `next_item_page`, on the SQLite store, whose pages `legacy_page` cuts in SQL, where the tables hold
-- the items whole, nothing writes in between and the engine refuses no request of a page: if the
-- command is a read and the policy allows it, the reader comes to the end after at most one more page
-- than there are members of the query, and has read every member once, in the order of the list,
-- however the engine arranges the rows of each page that the order leaves tied. Otherwise the first
-- page is refused as unauthorized. The items have identities that tell them apart, their number fits
-- an INTEGER, the configured requester is canonical, a text filter is not blank and the page size is
-- above 0.
pub list_pages_complete :
    (fault : M.Statement → Option SqliteError) (select_fault : Option SqliteError)
    (page_scan : Pagination → List ItemEntry → List ItemEntry)
    (scan : List ItemEntry → List ItemEntry) (db : Db) (items : List Item)
    (r : AuthorizationRequest) (view : NamedView) (requester : RequesterId)
    (filters : ItemListFilters) (limit : ℕ)
    → ((p : Pagination) → IsArrangement (page_scan p))
    → Holds db db.items items
    → Identified items
    → length items ≤ max_i64
    → IsCanonical upper requester.as_str
    → IsFilter filters
    → 0 < limit
    → let store = item_repository fault select_fault quiet page_scan scan db in
      let listed = members view requester filters items in
      let ready = members V.ready requester filters items in
      Reads r
        (order_items listed newest_first)
        (follow (list_item_page store r view requester filters) (suc (length listed)) limit 0)
      × Reads r
          (order_items ready next)
          (follow (next_item_page store r requester filters) (suc (length ready)) limit 0)
list_pages_complete fault select_fault page_scan scan db items r view requester filters limit
      arranges held apart few c f positive =
    pages_complete (item_repository fault select_fault quiet page_scan scan db) r view requester
      filters (members view requester filters items) (members V.ready requester filters items) limit
      (λ p.
        legacy_page-item_page (page_scan p) view requester filters newest_first p db items
          (arranges p) c f held apart few)
      (λ p.
        legacy_page-item_page (page_scan p) V.ready requester filters next p db items (arranges p) c
          f held apart few)
      positive
