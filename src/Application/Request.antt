-- ===== src/Application/Request.antt =====
-- src/application.rs: what the write use cases take and return.
use bif.Base.{Bool, List}
use bif.Base.Text.{Text}
use bif.Application.Authorize.{Unauthorized}
use bif.Domain.Identifier.{RequesterId, ProjectId}
use bif.Domain.Item.{Item, ItemId, ItemContent, Provenance, Revision}
use bif.Domain.Mutation.{ItemMutation, MutationError}

pub record CaptureInput : Type 0 where
  pub requester : RequesterId
  pub project : ProjectId
  pub content : ItemContent
  pub provenance : Provenance

pub record CaptureRequest : Type 0 where
  pub idempotency_key : Text
  pub input : CaptureInput

pub record CaptureResult : Type 0 where
  pub item : Item
  pub replayed : Bool

pub record CaptureIdentity : Type 0 where
  pub operation_id : Text
  pub event_id : Text

pub record MutationIdentity : Type 0 where
  pub operation_id : Text
  pub event_ids : List Text

pub record MutationRequest : Type 0 where
  pub idempotency_key : Text
  pub item_id : ItemId
  pub expected_revision : Revision
  pub mutation : ItemMutation

pub record MutationResult : Type 0 where
  pub item : Item
  pub replayed : Bool

pub data MutationStoreError (E : Type 0) : Type 0 where
  not_found restart_required version_conflict idempotency_conflict : MutationStoreError E
  invalid : MutationError → MutationStoreError E
  busy storage : E → MutationStoreError E

pub data CaptureStoreError (E : Type 0) : Type 0 where
  idempotency_conflict restart_required : CaptureStoreError E
  busy storage : E → CaptureStoreError E

pub data MutationUseCaseError (E : Type 0) : Type 0 where
  unauthorized : Unauthorized → MutationUseCaseError E
  not_found restart_required version_conflict idempotency_conflict : MutationUseCaseError E
  invalid : MutationError → MutationUseCaseError E
  busy storage : E → MutationUseCaseError E

pub data CaptureError (E : Type 0) : Type 0 where
  unauthorized : Unauthorized → CaptureError E
  idempotency_conflict restart_required : CaptureError E
  busy storage : E → CaptureError E
