-- ===== src/Application/UseCases/Guard.antt =====
-- The write use cases reach the store with allowed requests only.
use bif.Base.{◌≡◌, ◌⊎◌, inl, inr, refl, true, Result, ok, err, map_err, failed, arith, Bool-cases}
use bif.Domain.Item.{Timestamp}
use bif.Application.Authorize.{AuthorizationRequest, Unauthorized, unauthorized, authorize}
use bif.Application.Authorize.Policy.{Allowed, authorize_iff}
use bif.Application.Request.{CaptureRequest, CaptureIdentity, MutationRequest, MutationIdentity}
use bif.Application.Request as R
use bif.Application.UseCases.{
  MutationStore, CaptureStore, capture_payload_hash, mutation_payload_hash, mutation_error,
  capture_stopped, is_mutation, is_capture, mutate_item_idempotent, capture_item,
}

pub authorize-cases :
    (r : AuthorizationRequest) → (authorize r ≡ ok tt) ⊎ (authorize r ≡ err unauthorized)
authorize-cases r = by_outcome (authorize r) refl
  where
    by_outcome :
        (o : Result (Unit {0}) Unauthorized)
        → authorize r ≡ o
        → (authorize r ≡ ok tt) ⊎ (authorize r ≡ err unauthorized)
    by_outcome (ok tt) e = inl e
    by_outcome (err unauthorized) e = inr e

pub refused-⊥ : (r : AuthorizationRequest) → authorize r ≡ err unauthorized → Allowed r → ⊥
refused-⊥ r h a = let k = (authorize_iff r).1 a in cc

-- A mutation is passed on to the store, with the hash of its payload, if its command is a mutation and
-- the policy allows it. Otherwise it is unauthorized, and the store is left alone.
pub mutate_item_idempotent-guarded :
    {S E : Type 0} (store : MutationStore S E) (r : AuthorizationRequest) (now : Timestamp)
    (identity : MutationIdentity) (request : MutationRequest) (s : S)
    → let called =
        store.mutate request
          (mutation_payload_hash request r.actor r.execution)
          r.actor
          r.execution
          now
          identity
          s in
      let answer = mutate_item_idempotent store r now identity request s in
      ((is_mutation r.command ≡ true)
        × Allowed r
        × (answer ≡ (called.0, map_err mutation_error called.1)))
      ⊎ (((is_mutation r.command ≡ true) × Allowed r → ⊥)
          × (answer ≡ (s, err (R.unauthorized unauthorized))))
unfolding mutate_item_idempotent
mutate_item_idempotent-guarded store r now identity request s =
    elim (Bool-cases (is_mutation r.command)) [
      | inr other ↦ inr ((λ h. ground arith), ground arith)
      | inl wanted ↦ elim (authorize-cases r) [
        | inl allowed ↦ inl (wanted, (authorize_iff r).0 allowed, ground arith)
        | inr refused ↦ inr ((λ h. refused-⊥ r refused h.1), ground arith)
      ]
    ]

-- A capture is passed on to the store, with the hash of its payload, if its command is a capture and
-- the policy allows it. Otherwise it is unauthorized, and the store is left alone.
pub capture_item-guarded :
    {S E : Type 0} (store : CaptureStore S E) (r : AuthorizationRequest) (now : Timestamp)
    (identity : CaptureIdentity) (request : CaptureRequest) (s : S)
    → let called =
        store.capture request
          (capture_payload_hash request.input)
          r.actor
          r.execution
          now
          identity
          s in
      let answer = capture_item store r now identity request s in
      ((is_capture r.command ≡ true)
        × Allowed r
        × (answer ≡ (called.0, map_err capture_stopped called.1)))
      ⊎ (((is_capture r.command ≡ true) × Allowed r → ⊥)
          × (answer ≡ (s, err (failed (R.unauthorized unauthorized)))))
unfolding capture_item
capture_item-guarded store r now identity request s = elim (Bool-cases (is_capture r.command)) [
  | inr other ↦ inr ((λ h. ground arith), ground arith)
  | inl wanted ↦ elim (authorize-cases r) [
    | inl allowed ↦ inl (wanted, (authorize_iff r).0 allowed, ground arith)
    | inr refused ↦ inr ((λ h. refused-⊥ r refused h.1), ground arith)
  ]
]
