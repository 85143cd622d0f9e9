-- ===== src/Tests/CaptureTests.antt =====
-- src/storage.rs and src/application.rs: captures on a small store.
use bif.Base.{
  ℕ_discrete, List-discrete, ◌≡◌, ◌<◌, refl, true, false, [], ◌∷◌, Option, none, ok, err, failed,
  arith, list_eq, nat_eq, All, ℕ, ◌++◌, ◌*◌, ◌%◌, ◌^◌, ◌⊎◌, length, map_err,
}
use bif.Base.Text.{codes, has_text, is_whitespace, utf8, encode_char}
use bif.Samples as Samples
use bif.Samples.{item, item_id, db, pinned, davis, by_codex}
use bif.Domain.Item.{Item, new_item_id, new_capture}
use bif.Domain.Item.Display.{display, to_decimal, padded, digits, IsCanonicalId}
use bif.Application.Authorize.Policy.{Allowed}
use bif.Application.UseCases.{
  capture_payload_hash, mutation_payload_hash, capture_item, mutate_item_idempotent, is_mutation,
  mutation_error,
}
use bif.Application.UseCases.Guard.{mutate_item_idempotent-guarded}
use bif.Storage.Mutate.{mutate}
use bif.Storage.Writes.{Writes, start, captures, mutates, Writes-IsNumbered}
use bif.Storage.Repositories.{capture_repository, mutation_repository}
use bif.Storage.Repositories.Once.{capture_item-once}
use bif.Storage.Mutate.Stored as Stored
use bif.Application.Authorize as A
use bif.Application.Authorize.{
  authorize, validate_attribution, ActorKind-discrete, AuthorizationRequest, capture,
  observed_agent,
}
use bif.Application.Request.{CaptureInput, CaptureRequest, idempotency_conflict, unauthorized}
use bif.Application.Payload.{be_bytes, capture_payload, append_field, append_texts}
use bif.Application.Sha256.{sha256, pad_input, chunks_exact}
use bif.Application.Sha256.Padding.{zeros, join, pad_input_complete}
use bif.Storage.Codec.{item_columns, provenance_columns}
use bif.Storage.Db.{Db, find, update, insert_operation, insert_event, insert_receipt}
use bif.Storage.Db.Captures.{
  insert_project, update_counter, insert_item, insert_criterion, insert_provenance,
}
use bif.Storage.Session.{check_write_state, judge_state, read_store_state, same_state}
use bif.Storage.Journal.{parse_generation, append_change, insert_change, max_seq, read_metadata}
use bif.Storage.Journal.Coverage.{IsCovered}
use bif.Storage.Capture.{
  Call, capture_inner, capture_event, body, allocate, capture_new, insert_capture, insert_criteria,
  write_capture,
}
use bif.Storage.Capture.Commit.{with_capture}
use bif.Storage.Capture.Answers.{prepared, new_item, Answers, left, capture_inner-ok}
use bif.Storage.Capture.Retry.{no_fault, capture_inner-retry}
use bif.Storage.Capture.Numbering.{IsNumbered}
use bif.Base.Int.{as_i64, ℤ-discrete}

-- the store of the samples with the counter that its item has come from
abbrev numbered : Db
numbered = record db {
  counters = record { requester = codes "DAVIS"; project_id = codes "bif"; next_sequence = 8 } ∷ [];
}

abbrev input : CaptureInput
input = record {
  requester = item_id.requester;
  project = item_id.project;
  content = record {
    title = codes "Number the items";
    description = none;
    acceptance_criteria = codes "in order" ∷ [];
  };
  provenance = item.provenance;
}

abbrev request : CaptureRequest
request = record { idempotency_key = codes "key-9"; input = input }

abbrev call : Call
call = record {
  request = request;
  payload_hash = codes "abc";
  actor = davis;
  execution = by_codex;
  occurred_at = codes "2026-01-04T00:00:00Z";
  identity = record { operation_id = codes "op-9"; event_id = codes "ev-9" };
}

abbrev captured : Item
captured =
    new_capture (record item_id { sequence = 8 }) input.content input.provenance call.occurred_at
      call.occurred_at

abbrev after : Db
after = with_capture call captured (prepared call numbered)

captured_after :
    capture_inner no_fault pinned call numbered
    ≡ (after, ok (record { item = captured; replayed = false }))
unfolding capture_inner check_write_state judge_state read_store_state ℕ_discrete parse_generation
    List-discrete same_state find insert_project new_item_id insert_item display new_capture
    update_counter padded to_decimal item_columns as_i64 ℤ-discrete digits allocate body
    capture_event capture_new insert_capture insert_criteria write_capture provenance_columns
    insert_criterion insert_provenance insert_event insert_operation insert_receipt update
    append_change insert_change max_seq read_metadata
captured_after = refl

numbered-IsCovered : IsCovered numbered
unfolding parse_generation ℕ_discrete
numbered-IsCovered = record {
  generation = refl;
  floor = omega arith;
  fits = omega arith;
  allocator = refl;
  covers = refl;
}

numbered-IsNumbered : IsNumbered numbered
unfolding display padded to_decimal digits item_columns as_i64 find List-discrete ℕ_discrete
numbered-IsNumbered = record {
  items = (
    (
      item_id,
      record { requester = codes "DAVIS"; project_id = codes "bif"; next_sequence = 8 },
      (refl, refl),
      refl,
      refl,
      refl,
      refl,
      refl,
      omega arith,
      omega arith,
    ),
    tt,
  );
  counters = ((omega arith, omega arith), tt);
}

captured-IsCanonicalId : IsCanonicalId (new_item call numbered).id
unfolding new_capture
captured-IsCanonicalId = (refl, refl)

capture_inner-ok_example :
    (check_write_state none pinned numbered ≡ ok true)
    × ((next : Option Db) × (after ≡ left numbered next)
        × Answers call numbered (record { item = captured; replayed = false }) next)
capture_inner-ok_example =
    capture_inner-ok no_fault pinned call numbered after
      (record { item = captured; replayed = false }) numbered-IsCovered captured_after

-- a mutation behind the capture
abbrev mutated : Db
mutated = (mutate Stored.no_fault pinned Samples.call after).0

writes : Writes numbered mutated
writes =
    mutates Stored.no_fault pinned Samples.call (mutate Stored.no_fault pinned Samples.call after).1
      (captures no_fault pinned call (ok (record { item = captured; replayed = false })) start
        captured-IsCanonicalId captured_after)
      refl

Writes-IsNumbered_example : IsCovered mutated × IsNumbered mutated
Writes-IsNumbered_example =
    Writes-IsNumbered numbered mutated writes numbered-IsCovered numbered-IsNumbered

-- the same key with another payload
abbrev conflicting : Call
conflicting = record call { payload_hash = codes "def" }

capture_inner-retry_example :
    capture_inner no_fault pinned conflicting after ≡ (after, err (failed idempotency_conflict))
unfolding ℕ_discrete List-discrete
capture_inner-retry_example =
    capture_inner-retry no_fault pinned call conflicting numbered after
      (record { item = captured; replayed = false }) numbered-IsCovered numbered-IsNumbered
      captured_after refl

abbrev asked : AuthorizationRequest
asked = record {
  actor = davis;
  execution = by_codex;
  observed_execution = observed_agent (codes "codex-1");
  command = capture;
  human_authorization = none;
}

-- FIPS 180-4: the digest of "abc"
sha256_abc :
    sha256 (codes "abc") ≡ codes "ba7816bf8f01cfea414140de5dae2223b00361a396177a9cb410ff61f20015ad"
unfolding sha256 be_bytes ℕ_discrete
sha256_abc = refl

-- the call with the hash that the use case takes
abbrev hashed : Call
hashed = record call { payload_hash = capture_payload_hash input }

abbrev after_hashed : Db
after_hashed = with_capture hashed captured (prepared hashed numbered)

asked_captures :
    capture_item
      (capture_repository no_fault pinned)
      asked
      call.occurred_at
      call.identity
      request
      numbered
    ≡ (after_hashed, ok (record { item = captured; replayed = false }))
unfolding capture_item authorize validate_attribution has_text is_whitespace capture_inner
    check_write_state judge_state read_store_state ℕ_discrete parse_generation List-discrete
    ActorKind-discrete same_state find insert_project new_item_id insert_item display new_capture
    update_counter padded to_decimal item_columns as_i64 ℤ-discrete digits allocate body
    capture_event capture_new insert_capture insert_criteria write_capture provenance_columns
    insert_criterion insert_provenance insert_event insert_operation insert_receipt update
    append_change insert_change max_seq read_metadata capture_payload_hash sha256 capture_payload
    append_field append_texts be_bytes utf8 encode_char
asked_captures = refl

capture_item-once_example :
    capture_item
      (capture_repository no_fault pinned)
      asked
      (codes "2026-02-01T00:00:00Z")
      (record { operation_id = codes "op-10"; event_id = codes "ev-10" })
      request
      after_hashed
    ≡ (after_hashed, ok (record { item = captured; replayed = true }))
capture_item-once_example =
    capture_item-once no_fault pinned asked call.occurred_at (codes "2026-02-01T00:00:00Z")
      call.identity (record { operation_id = codes "op-10"; event_id = codes "ev-10" }) request
      numbered after_hashed (record { item = captured; replayed = false }) numbered-IsCovered
      numbered-IsNumbered asked_captures

mutate_item_idempotent-guarded_example :
    let called =
      (mutation_repository Stored.no_fault pinned).mutate Samples.request
        (mutation_payload_hash Samples.request asked.actor asked.execution)
        asked.actor
        asked.execution
        call.occurred_at
        Samples.call.identity
        numbered in
    let answer =
      mutate_item_idempotent
        (mutation_repository Stored.no_fault pinned)
        asked
        call.occurred_at
        Samples.call.identity
        Samples.request
        numbered in
    ((is_mutation asked.command ≡ true)
      × Allowed asked
      × (answer ≡ (called.0, map_err mutation_error called.1)))
    ⊎ (((is_mutation asked.command ≡ true) × Allowed asked → ⊥)
        × (answer ≡ (numbered, err (unauthorized A.unauthorized))))
mutate_item_idempotent-guarded_example =
    mutate_item_idempotent-guarded (mutation_repository Stored.no_fault pinned) asked
      call.occurred_at Samples.call.identity Samples.request numbered

pad_input_complete_example :
    let padded = pad_input (codes "abc") in
    let chunks = chunks_exact (length padded) padded in
    ((k : ℕ) × (k < 64)
      × (padded
          ≡ (codes "abc" ++ 0x80 ∷ [])
            ++ (zeros k ++ be_bytes (length (codes "abc") * 8 % 2 ^ 64))))
    × (join chunks ≡ padded)
    × All (λ c. length c ≡ 64) chunks
pad_input_complete_example = pad_input_complete (codes "abc")
