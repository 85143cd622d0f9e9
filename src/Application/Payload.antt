-- ===== src/Application/Payload.antt =====
-- src/application.rs: the canonical bytes behind `capture_payload_hash` and
-- `mutation_payload_hash`. A push onto the byte vector is an append.
pub mod Fields
pub mod Intent
use bif.Base.{ℕ, ◌/◌, ◌%◌, ◌^◌, List, [], ◌∷◌, ◌++◌, Option, none, some, length}
use bif.Base.Text.{Text, Bytes, codes, utf8}
use bif.Domain.Identifier.{AssigneeId}
use bif.Domain.Item.{Priority, p0, p1, p2, p3, p4, SourceHost, delta, codex, local}
use bif.Domain.Item.Display.{display}
use bif.Domain.Triage.{TriageField, omitted, clear, set, Triage}
use bif.Domain.Mutation.{
  LifecycleMutation, approve_item, reject_item, start_item, block_item, resume_item, finish_item,
}
use bif.Application.Authorize.{ActorKind, human, agent, Actor, Execution, direct, agent_execution}
use bif.Application.Request.{CaptureInput, MutationRequest}

-- `u64::to_be_bytes`
unfoldable pub be_bytes : ℕ → Bytes
be_bytes n =
    (n / 2 ^ 56 % 256)
    ∷ (n / 2 ^ 48 % 256)
    ∷ (n / 2 ^ 40 % 256)
    ∷ (n / 2 ^ 32 % 256)
    ∷ (n / 2 ^ 24 % 256)
    ∷ (n / 2 ^ 16 % 256)
    ∷ (n / 2 ^ 8 % 256)
    ∷ (n % 256)
    ∷ []

unfoldable pub append_field : Bytes → Option Text → Bytes
append_field output none = output ++ 0 ∷ []
append_field output (some value) =
    ((output ++ 1 ∷ []) ++ be_bytes (length (utf8 value))) ++ utf8 value

-- a loop that appends a field for each text
unfoldable pub append_texts : Bytes → List Text → Bytes
append_texts output [] = output
append_texts output (t ∷ ts) = append_texts (append_field output (some t)) ts

abbrev pub lifecycle_field : Option LifecycleMutation → Option Text
lifecycle_field none = none
lifecycle_field (some approve_item) = some (codes "approve")
lifecycle_field (some (reject_item reason)) = some (codes "reject")
lifecycle_field (some start_item) = some (codes "start")
lifecycle_field (some (block_item reason)) = some (codes "block")
lifecycle_field (some resume_item) = some (codes "resume")
lifecycle_field (some finish_item) = some (codes "finish")

abbrev pub reason_field : Option LifecycleMutation → Option Text
reason_field (some (reject_item reason)) = some reason
reason_field (some (block_item reason)) = some reason
reason_field _ = none

abbrev pub priority_field : TriageField Priority → Option Text
priority_field omitted = none
priority_field clear = some (codes "clear")
priority_field (set p0) = some (codes "set:P0")
priority_field (set p1) = some (codes "set:P1")
priority_field (set p2) = some (codes "set:P2")
priority_field (set p3) = some (codes "set:P3")
priority_field (set p4) = some (codes "set:P4")

abbrev pub assignee_field : TriageField AssigneeId → Option Text
assignee_field omitted = none
assignee_field clear = some (codes "clear")
assignee_field (set a) = some a.as_str

abbrev pub kind_name : ActorKind → Text
kind_name human = codes "human"
kind_name agent = codes "agent"

unfoldable pub append_triage : Bytes → Option Triage → Bytes
append_triage c none = append_field c none
append_triage c (some t) =
    let c = append_field c (some (codes "triage")) in
    let c = append_field c (priority_field t.priority) in
    let c = append_field c (assignee_field t.assignee) in append_field c t.note

unfoldable pub append_execution : Bytes → Execution → Bytes
append_execution c (direct surface host) =
    let c = append_field c (some (codes "direct")) in
    let c = append_field c none in
    let c = append_field c (some surface) in append_field c (some host)
append_execution c (agent_execution agent_id surface host) =
    let c = append_field c (some (codes "agent")) in
    let c = append_field c (some agent_id) in
    let c = append_field c (some surface) in append_field c (some host)

-- `canonical` of `mutation_payload_hash`
unfoldable pub mutation_payload : MutationRequest → Actor → Execution → Bytes
mutation_payload request actor execution =
    let c = append_field [] (some (display request.item_id)) in
    let c = c ++ be_bytes request.expected_revision in
    let c = append_field c (lifecycle_field request.mutation.lifecycle) in
    let c = append_field c (reason_field request.mutation.lifecycle) in
    let c = append_triage c request.mutation.triage in
    let c = append_field c (some (kind_name actor.kind)) in
    let c = append_texts c (actor.id ∷ actor.surface ∷ actor.host ∷ []) in
    append_execution c execution

abbrev pub host_field : Option SourceHost → Option Text
host_field none = none
host_field (some delta) = some (codes "delta")
host_field (some codex) = some (codes "codex")
host_field (some local) = some (codes "local")

-- `canonical` of `capture_payload_hash`
unfoldable pub capture_payload : CaptureInput → Bytes
capture_payload input =
    let p = input.provenance in
    let c = append_field [] (some input.requester.as_str) in
    let c = append_field c (some input.project.as_str) in
    let c = append_field c (some input.content.title) in
    let c = append_field c input.content.description in
    let c = c ++ be_bytes (length input.content.acceptance_criteria) in
    let c = append_texts c input.content.acceptance_criteria in
    let c = append_field c (host_field p.source_host) in
    let c = append_field c p.thread_id in
    let c = append_field c p.message_id in
    let c = append_field c p.url in
    let c = append_field c p.repository_reference in
    let c = append_field c p.revision_reference in append_field c p.context_excerpt
