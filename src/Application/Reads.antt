-- ===== src/Application/Reads.antt =====
-- src/application.rs: the read use cases of items and lists, on any store.
pub mod Walk
use bif.Base.{
  ◌≡◌, ◌≢◌, ◌↔◌, ◌⊎◌, inl, inr, refl, sym, ap, ◌∙◌, Bool, true, false, not, List, Option, none,
  some, Result, ok, err, ◌>>=◌, ◌>>◌, map_err, ok_or, if◌then◌else◌, arith, Bool-cases,
}
use bif.Base.Text.{Text}
use bif.Domain.Identifier.{RequesterId}
use bif.Domain.Item.{Item, ItemId}
use bif.Domain.View.{NamedView}
use bif.Domain.View as V
use bif.Application.Authorize.{Command, read, AuthorizationRequest, Unauthorized, authorize}
use bif.Application.Authorize as A
use bif.Application.Authorize.Policy.{IsAttributed, Allowed, authorize_iff}
use bif.Application.Listing.{
  ItemListFilters, ItemListOrdering, newest_first, next, Pagination, ItemPage,
}

-- `ItemStore` and `NamedViewStore`, at one state of the store
pub record ItemStore (E : Type 0) : Type 0 where
  pub read_item : ItemId → Result (Option Item) E

pub record NamedViewStore (E : Type 0) : Type 0 where
  pub select_items : NamedView → RequesterId → ItemListFilters → Result (List Item) E
  pub select_item_page :
      NamedView → RequesterId → ItemListFilters → ItemListOrdering → Pagination → Result ItemPage E

pub data ReadItemError (E : Type 0) : Type 0 where
  unauthorized : Unauthorized → ReadItemError E
  not_found : ReadItemError E
  storage : E → ReadItemError E

pub data SelectNamedViewError (E : Type 0) : Type 0 where
  unauthorized : Unauthorized → SelectNamedViewError E
  storage : E → SelectNamedViewError E

abbrev pub is_read : Command → Bool
is_read read = true
is_read _ = false

-- `authorize_read`, which the use cases of src/application.rs write out
unfoldable pub authorize_read : AuthorizationRequest → Result (Unit {0}) Unauthorized
authorize_read request =
    if not (is_read request.command) then err A.unauthorized else authorize request

-- `ItemListFilters::default()`
abbrev pub no_filters : ItemListFilters
no_filters = record {
  project = none;
  requester = none;
  assignee = none;
  status = none;
  priority = none;
  unassigned = false;
  text = none;
}

module _ {E : Type 0} where
  unfoldable pub read_item :
      ItemStore E → AuthorizationRequest → ItemId → Result Item (ReadItemError E)
  unfolding authorize_read
  read_item store authorization item_id = do
    done ← map_err unauthorized (authorize_read authorization)
    stored ← map_err storage (store.read_item item_id)
    ok_or not_found stored

  unfoldable pub list_items :
      NamedViewStore E
      → AuthorizationRequest
      → NamedView
      → RequesterId
      → ItemListFilters
      → Result (List Item) (SelectNamedViewError E)
  unfolding authorize_read
  list_items store authorization view requester filters = do
    done ← map_err unauthorized (authorize_read authorization)
    map_err storage (store.select_items view requester filters)

  unfoldable pub select_named_view :
      NamedViewStore E
      → AuthorizationRequest
      → NamedView
      → RequesterId
      → Result (List Item) (SelectNamedViewError E)
  unfolding list_items
  select_named_view store authorization view requester =
      list_items store authorization view requester no_filters

  unfoldable pub list_item_page :
      NamedViewStore E
      → AuthorizationRequest
      → NamedView
      → RequesterId
      → ItemListFilters
      → Pagination
      → Result ItemPage (SelectNamedViewError E)
  unfolding authorize_read
  list_item_page store authorization view requester filters pagination = do
    done ← map_err unauthorized (authorize_read authorization)
    map_err storage (store.select_item_page view requester filters newest_first pagination)

  unfoldable pub next_item_page :
      NamedViewStore E
      → AuthorizationRequest
      → RequesterId
      → ItemListFilters
      → Pagination
      → Result ItemPage (SelectNamedViewError E)
  unfolding authorize_read
  next_item_page store authorization requester filters pagination = do
    done ← map_err unauthorized (authorize_read authorization)
    map_err storage (store.select_item_page V.ready requester filters next pagination)
