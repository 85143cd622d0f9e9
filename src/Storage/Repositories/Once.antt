-- ===== src/Storage/Repositories/Once.antt =====
-- A capture that is submitted again takes effect once.
use bif.Base.{◌≡◌, inl, inr, refl, true, Option, ok, arith, list_eq, nat_eq}
use bif.Domain.Item.{Timestamp}
use bif.Application.Authorize.{AuthorizationRequest}
use bif.Application.Request.{CaptureRequest, CaptureIdentity, CaptureResult}
use bif.Application.UseCases.{capture_payload_hash, capture_item}
use bif.Application.UseCases.Guard.{capture_item-guarded}
use bif.Storage.Codec.{SqliteError}
use bif.Storage.Db.{Db}
use bif.Storage.Session.{ReadStoreState}
use bif.Storage.Journal.Coverage.{IsCovered}
use bif.Storage.Capture.{Statement, Call, capture_inner}
use bif.Storage.Capture.Numbering.{IsNumbered}
use bif.Storage.Capture.Retry.{no_fault, capture_inner-retry, capture_inner-recaptured}
use bif.Storage.Repositories.{capture_repository}

-- the call that a use case makes
abbrev call_of : AuthorizationRequest → Timestamp → CaptureIdentity → CaptureRequest → Call
call_of r now identity request = record {
  request = request;
  payload_hash = capture_payload_hash request.input;
  actor = r.actor;
  execution = r.execution;
  occurred_at = now;
  identity = identity;
}

-- On a store whose journal is covered and whose items are numbered: once a capture has been answered,
-- the same request submitted again, at any time and with any identity, is answered with the same
-- item, marked as replayed, as long as the engine does not fail. The store is left alone.
pub capture_item-once :
    (fault : Statement → Option SqliteError) (pinned : ReadStoreState) (r : AuthorizationRequest)
    (now now' : Timestamp) (identity identity' : CaptureIdentity) (request : CaptureRequest)
    (db after : Db) (result : CaptureResult)
    → IsCovered db
    → IsNumbered db
    → capture_item (capture_repository fault pinned) r now identity request db ≡ (after, ok result)
    → capture_item (capture_repository no_fault pinned) r now' identity' request after
      ≡ (after, ok (record { item = result.item; replayed = true }))
capture_item-once fault pinned r now now' identity identity' request db after result c n h =
    elim (capture_item-guarded (capture_repository fault pinned) r now identity request db) [
      | inr (barred, same) ↦ absurd (ground arith)
      | inl (wanted, allowed, same) ↦
          let call = call_of r now identity request in
          let retry = call_of r now' identity' request in
          let ran : capture_inner fault pinned call db ≡ (after, ok result) = ground arith in
          let again = capture_inner-retry fault pinned call retry db after result c n ran refl in
          let same_item = capture_inner-recaptured fault pinned call db after result c ran in
          elim (capture_item-guarded (capture_repository no_fault pinned) r now' identity' request
            after) [
              | inr (barred, same') ↦ absurd (barred (wanted, allowed))
              | inl (_, _, same') ↦ ground arith
            ]
    ]
