-- ===== src/Application/Projections.antt =====
-- src/application/projections.rs and src/application/reads.rs: the projections of an item, the
-- requests for them and for pages, and the use cases that read them.
use bif.Base.{
  ℕ, ◌+◌, Bool, ◌&&◌, List, Option, Result, ok, err, ◌>>=◌, ◌>>◌, map_err, ok_or, if◌then◌else◌,
}
use bif.Base.Text.{Text}
use bif.Domain.Identifier.{RequesterId, AssigneeId}
use bif.Domain.Item.{Item, ItemId, Status, Priority, Revision, Timestamp, Provenance}
use bif.Domain.View.{NamedView}
use bif.Application.Authorize.{AuthorizationRequest, Unauthorized}
use bif.Application.Fingerprint.{ItemProjectionKind}
use bif.Application.Listing.{ItemListFilters, ItemListOrdering, InvalidPagination, new_page_size}
use bif.Application.ReadSemantics.{
  ItemReadKey, InvalidProjectionFilters, invalid_projection_filters, is_some,
}
use bif.Application.Reads.{ReadItemError, authorize_read}

pub record ItemSummary : Type 0 where
  pub id : ItemId
  pub title : Text
  pub status : Status
  pub priority : Option Priority
  pub assignee : Option AssigneeId
  pub revision : Revision

pub record ItemWork : Type 0 where
  pub summary : ItemSummary  -- the same six fields
  pub description : Option Text
  pub acceptance_criteria : List Text
  pub status_reason : Option Text

pub record ItemAudit : Type 0 where
  pub work : ItemWork  -- the same nine fields
  pub captured_at : Timestamp
  pub updated_at : Timestamp
  pub provenance : Provenance

-- the three `From<&Item>`
unfoldable pub summary_of : Item → ItemSummary
summary_of item = record {
  id = item.id;
  title = item.content.title;
  status = item.status;
  priority = item.priority;
  assignee = item.assignee;
  revision = item.revision;
}

unfoldable pub work_of : Item → ItemWork
unfolding summary_of
work_of item = record {
  summary = summary_of item;
  description = item.content.description;
  acceptance_criteria = item.content.acceptance_criteria;
  status_reason = item.status_reason;
}

unfoldable pub audit_of : Item → ItemAudit
unfolding work_of
audit_of item = record {
  work = work_of item;
  captured_at = item.captured_at;
  updated_at = item.updated_at;
  provenance = item.provenance;
}

pub data ItemProjection : Type 0 where
  summary_projection : ItemSummary → ItemProjection
  work_projection : ItemWork → ItemProjection
  audit_projection : ItemAudit → ItemProjection

-- `ReadPageRequest<Key>`
pub record ReadPageRequest {ℓ} (K : Type ℓ) : Type ℓ where
  pub limit : ℕ
  pub after : Option K

unfoldable pub new_page_request :
    {K : Type 0} → ℕ → Option K → Result (ReadPageRequest K) InvalidPagination
new_page_request limit after = do
  size ← new_page_size limit
  ok (record { limit = size; after = after })

abbrev pub row_limit : {K : Type 0} → ReadPageRequest K → ℕ
row_limit request = request.limit + 1

pub record ReadPage (R : Type 0) : Type 0 where
  pub records : List R
  pub has_more : Bool

pub record ProjectedItemRow : Type 0 where
  pub item : ItemProjection
  pub key : ItemReadKey

pub record ProjectionGetRequest : Type 0 where
  pub item_id : ItemId
  pub projection : ItemProjectionKind

pub record ItemProjectionPageRequest : Type 0 where
  pub view : NamedView
  pub configured_requester : RequesterId
  pub filters : ItemListFilters
  pub projection : ItemProjectionKind
  pub ordering : ItemListOrdering
  pub page : ReadPageRequest ItemReadKey

-- `ItemProjectionStore`, at one state of the store
pub record ItemProjectionStore (E : Type 0) : Type 0 where
  pub read_projection : ProjectionGetRequest → Result (Option ItemProjection) E
  pub select_projection_page : ItemProjectionPageRequest → Result (ReadPage ProjectedItemRow) E

pub data ProjectionPageError (E : Type 0) : Type 0 where
  invalid_filters : InvalidProjectionFilters → ProjectionPageError E
  unauthorized : Unauthorized → ProjectionPageError E
  storage : E → ProjectionPageError E

module _ {E : Type 0} where
  unfoldable pub read_item_projection :
      ItemProjectionStore E
      → AuthorizationRequest
      → ProjectionGetRequest
      → Result ItemProjection (ReadItemError E)
  unfolding authorize_read
  read_item_projection store authorization request = do
    done ← map_err ReadItemError.unauthorized (authorize_read authorization)
    found ← map_err ReadItemError.storage (store.read_projection request)
    ok_or ReadItemError.not_found found

  unfoldable pub read_item_projection_page :
      ItemProjectionStore E
      → AuthorizationRequest
      → ItemProjectionPageRequest
      → Result (ReadPage ProjectedItemRow) (ProjectionPageError E)
  unfolding authorize_read
  read_item_projection_page store authorization request =
      if is_some request.filters.assignee && request.filters.unassigned
      then err (invalid_filters invalid_projection_filters)
      else map_err ProjectionPageError.unauthorized (authorize_read authorization)
        >> map_err ProjectionPageError.storage (store.select_projection_page request)
