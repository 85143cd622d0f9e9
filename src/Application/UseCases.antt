-- ===== src/Application/UseCases.antt =====
-- src/application.rs: the write use cases, `capture`, `mutate_item_idempotent` and `mutate_item`, on
-- any store. What the clock and the generator of identities answer is an argument.
pub mod Guard
use bif.Base.{
  Bool, true, false, not, if◌then◌else◌, ◌++◌, Result, ok, err, map_err, Stopped, failed, panicked,
}
use bif.Base.Text.{Text, codes}
use bif.Domain.Item.{Item, ItemId, Revision, Timestamp}
use bif.Domain.Mutation.{ItemMutation}
use bif.Application.Authorize.{
  Actor, Execution, Command, read, capture, mutation, AuthorizationRequest, Unauthorized, authorize,
}
use bif.Application.Authorize as A
use bif.Application.Request.{
  CaptureRequest, CaptureResult, CaptureIdentity, CaptureStoreError, CaptureError, MutationRequest,
  MutationResult, MutationIdentity, MutationStoreError, MutationUseCaseError,
}
use bif.Application.Request as R
use bif.Application.Payload.{capture_payload, mutation_payload}
use bif.Application.Sha256.{sha256}

-- `MutationStore` and `CaptureStore`, on the states of a store
pub record MutationStore (S E : Type 0) : Type 0 where
  pub mutate :
      MutationRequest
      → Text
      → Actor
      → Execution
      → Timestamp
      → MutationIdentity
      → S
      → S × Result MutationResult (MutationStoreError E)

pub record CaptureStore (S E : Type 0) : Type 0 where
  pub capture :
      CaptureRequest
      → Text
      → Actor
      → Execution
      → Timestamp
      → CaptureIdentity
      → S
      → S × Result CaptureResult (Stopped (CaptureStoreError E))

unfoldable pub capture_payload_hash : R.CaptureInput → Text
capture_payload_hash input = sha256 (capture_payload input)

unfoldable pub mutation_payload_hash : MutationRequest → Actor → Execution → Text
mutation_payload_hash request actor execution = sha256 (mutation_payload request actor execution)

abbrev pub is_mutation : Command → Bool
is_mutation (mutation changes) = true
is_mutation _ = false

abbrev pub is_capture : Command → Bool
is_capture capture = true
is_capture _ = false

module _ {E : Type 0} where
  -- the two `map_err` closures
  abbrev pub mutation_error : MutationStoreError E → MutationUseCaseError E
  mutation_error R.not_found = R.not_found
  mutation_error R.restart_required = R.restart_required
  mutation_error R.version_conflict = R.version_conflict
  mutation_error R.idempotency_conflict = R.idempotency_conflict
  mutation_error (R.invalid e) = R.invalid e
  mutation_error (R.busy e) = R.busy e
  mutation_error (R.storage e) = R.storage e

  abbrev pub capture_error : CaptureStoreError E → CaptureError E
  capture_error R.idempotency_conflict = R.idempotency_conflict
  capture_error R.restart_required = R.restart_required
  capture_error (R.busy e) = R.busy e
  capture_error (R.storage e) = R.storage e

  -- a panic goes on
  abbrev pub capture_stopped : Stopped (CaptureStoreError E) → Stopped (CaptureError E)
  capture_stopped (failed e) = failed (capture_error e)
  capture_stopped panicked = panicked

  abbrev answered_item :
      Result MutationResult (MutationUseCaseError E) → Result Item (MutationUseCaseError E)
  answered_item (ok result) = ok result.item
  answered_item (err e) = err e

module _ {S E : Type 0} where
  unfoldable pub mutate_item_idempotent :
      MutationStore S E
      → AuthorizationRequest
      → Timestamp
      → MutationIdentity
      → MutationRequest
      → S
      → S × Result MutationResult (MutationUseCaseError E)
  mutate_item_idempotent store authorization now identity request s =
      if not (is_mutation authorization.command)
      then (s, err (R.unauthorized A.unauthorized))
      else elim (authorize authorization) [
        | err e ↦ (s, err (R.unauthorized e))
        | ok done ↦
            let payload_hash =
              mutation_payload_hash request authorization.actor authorization.execution in
            let (after, outcome) =
              store.mutate request payload_hash authorization.actor authorization.execution now
                identity s in
            (after, map_err mutation_error outcome)
      ]

  unfoldable pub mutate_item :
      MutationStore S E
      → AuthorizationRequest
      → Timestamp
      → MutationIdentity
      → ItemId
      → Revision
      → ItemMutation
      → S
      → S × Result Item (MutationUseCaseError E)
  unfolding mutate_item_idempotent
  mutate_item store authorization now identity item_id expected_revision change s =
      let request : MutationRequest = record {
        idempotency_key = codes "legacy:" ++ identity.operation_id;
        item_id = item_id;
        expected_revision = expected_revision;
        mutation = change;
      } in
      let (after, outcome) = mutate_item_idempotent store authorization now identity request s in
      (after, answered_item outcome)

  unfoldable pub capture_item :
      CaptureStore S E
      → AuthorizationRequest
      → Timestamp
      → CaptureIdentity
      → CaptureRequest
      → S
      → S × Result CaptureResult (Stopped (CaptureError E))
  capture_item store authorization now identity request s =
      if not (is_capture authorization.command)
      then (s, err (failed (R.unauthorized A.unauthorized)))
      else elim (authorize authorization) [
        | err e ↦ (s, err (failed (R.unauthorized e)))
        | ok done ↦
            let payload_hash = capture_payload_hash request.input in
            let (after, outcome) =
              store.capture request payload_hash authorization.actor authorization.execution now
                identity s in
            (after, map_err capture_stopped outcome)
      ]
