-- ===== src/Application/History.antt =====
-- src/application.rs and src/application/reads.rs: the records of an item's history, the requests
-- for pages of it, and the use cases that read it.
use bif.Base.{ℕ, not, List, Option, Result, err, ◌>>◌, map_err, if◌then◌else◌}
use bif.Base.Text.{Text}
use bif.Domain.Item.{ItemId, Revision, Timestamp}
use bif.Domain.Mutation.{EventType, EventValue}
use bif.Application.Authorize.{ActorKind, AuthorizationRequest, Unauthorized, authorize}
use bif.Application.Authorize as A
use bif.Application.Projections.{ReadPageRequest, ReadPage}
use bif.Application.Reads.{is_read, authorize_read}

pub record EventActor : Type 0 where
  pub kind : ActorKind
  pub id : Text
  pub surface : Text
  pub host : Text

pub data EventExecution : Type 0 where
  direct : Text → Text → EventExecution  -- surface, host
  agent_execution : Text → Text → Text → EventExecution  -- agent_id, surface, host

pub record ItemHistoryEvent : Type 0 where
  pub operation_id : Text
  pub event_id : Text
  pub item_revision : Revision
  pub event_index : ℕ
  pub event_type : EventType
  pub before : Option EventValue
  pub after : Option EventValue
  pub actor : EventActor
  pub execution : EventExecution
  pub reason : Option Text
  pub note : Option Text
  pub occurred_at : Timestamp
  pub schema_version : ℕ

pub data ItemHistoryStoreError (E : Type 0) : Type 0 where
  not_found : ItemHistoryStoreError E
  invalid_persisted_data storage : E → ItemHistoryStoreError E

pub data ItemHistoryError (E : Type 0) : Type 0 where
  unauthorized : Unauthorized → ItemHistoryError E
  not_found : ItemHistoryError E
  invalid_persisted_data storage : E → ItemHistoryError E

-- the `match error` of both use cases
unfoldable pub from_store_error : {E : Type 0} → ItemHistoryStoreError E → ItemHistoryError E
from_store_error ItemHistoryStoreError.not_found = ItemHistoryError.not_found
from_store_error (ItemHistoryStoreError.invalid_persisted_data e) =
    ItemHistoryError.invalid_persisted_data e
from_store_error (ItemHistoryStoreError.storage e) = ItemHistoryError.storage e

pub record HistoryReadKey : Type 0 where
  pub item_revision : Revision
  pub event_index : ℕ

-- `impl From<&ItemHistoryEvent> for HistoryReadKey`
abbrev pub history_key : ItemHistoryEvent → HistoryReadKey
history_key e = record { item_revision = e.item_revision; event_index = e.event_index }

-- `ordering` has one value and is left out
pub record HistoryPageRequest : Type 0 where
  pub item_id : ItemId
  pub page : ReadPageRequest HistoryReadKey

-- `ItemHistoryStore` and `ItemHistoryPageStore`, at one state of the store
pub record ItemHistoryStore (E : Type 0) : Type 0 where
  pub item_history : ItemId → Result (List ItemHistoryEvent) (ItemHistoryStoreError E)
  pub select_history_page :
      HistoryPageRequest → Result (ReadPage ItemHistoryEvent) (ItemHistoryStoreError E)

module _ {E : Type 0} where
  unfoldable pub read_item_history :
      ItemHistoryStore E
      → AuthorizationRequest
      → ItemId
      → Result (List ItemHistoryEvent) (ItemHistoryError E)
  unfolding from_store_error
  read_item_history store authorization item_id =
      if not (is_read authorization.command)
      then err (ItemHistoryError.unauthorized A.unauthorized)
      else map_err ItemHistoryError.unauthorized (authorize authorization)
        >> map_err from_store_error (store.item_history item_id)

  unfoldable pub read_item_history_page :
      ItemHistoryStore E
      → AuthorizationRequest
      → HistoryPageRequest
      → Result (ReadPage ItemHistoryEvent) (ItemHistoryError E)
  unfolding from_store_error authorize_read
  read_item_history_page store authorization request =
      map_err ItemHistoryError.unauthorized (authorize_read authorization)
      >> map_err from_store_error (store.select_history_page request)
