-- ===== src/Application/Payload/Intent.antt =====
-- What the canonical bytes of a mutation determine.
use bif.Base.{
  ◌^◌, ◌<◌, ◌≡◌, refl, sym, ◌∙◌, ◌⊎◌, inl, inr, List, [], ◌∷◌, ◌++◌, append_assoc, append-nil,
  Option, none, some, All, arith,
}
use bif.Base.Text.{Text, Bytes, codes}
use bif.Domain.Identifier.{AssigneeId}
use bif.Domain.Item.{Priority, p0, p1}
use bif.Domain.Item.Display.{display, IsCanonicalId, display-injective}
use bif.Domain.Triage.{TriageField, omitted, clear, set, Triage}
use bif.Domain.Mutation.{LifecycleMutation, approve_item}
use bif.Application.Authorize.{ActorKind, human, agent, Actor, Execution, direct, agent_execution}
use bif.Application.Request.{MutationRequest}
use bif.Application.Payload.{
  be_bytes, append_triage, append_execution, lifecycle_field, reason_field, priority_field,
  assignee_field, kind_name, mutation_payload,
}
use bif.Application.Payload.Fields.{
  field, fields, IsField, append_field-field, append_texts-fields, field-injective,
  fields-injective, be_bytes-injective,
}

abbrev pub triage_fields : Option Triage → List (Option Text)
triage_fields none = none ∷ []
triage_fields (some t) =
    some (codes "triage") ∷ priority_field t.priority ∷ assignee_field t.assignee ∷ t.note ∷ []

abbrev pub execution_fields : Execution → List (Option Text)
execution_fields (direct surface host) =
    some (codes "direct") ∷ none ∷ some surface ∷ some host ∷ []
execution_fields (agent_execution agent_id surface host) =
    some (codes "agent") ∷ some agent_id ∷ some surface ∷ some host ∷ []

abbrev pub actor_fields : Actor → List (Option Text)
actor_fields a = some (kind_name a.kind) ∷ some a.id ∷ some a.surface ∷ some a.host ∷ []

abbrev pub intent_fields : MutationRequest → Actor → Execution → List (Option Text)
intent_fields r a e =
    lifecycle_field r.mutation.lifecycle
    ∷ reason_field r.mutation.lifecycle
    ∷ (triage_fields r.mutation.triage ++ (actor_fields a ++ execution_fields e))

fields-append : (vs ws : List (Option Text)) → fields (vs ++ ws) ≡ fields vs ++ fields ws
unfolding fields
fields-append [] ws = refl
fields-append (v ∷ vs) ws = simp (fields-append vs ws, append_assoc)

append_triage-fields :
    (c : Bytes) (t : Option Triage) → append_triage c t ≡ c ++ fields (triage_fields t)
unfolding append_triage fields
append_triage-fields c none = simp (append_field-field, append-nil)
append_triage-fields c (some t) = simp (append_field-field, append_assoc, append-nil)

append_execution-fields :
    (c : Bytes) (e : Execution) → append_execution c e ≡ c ++ fields (execution_fields e)
unfolding append_execution fields
append_execution-fields c (direct s h) = simp (append_field-field, append_assoc, append-nil)
append_execution-fields c (agent_execution i s h) =
    simp (append_field-field, append_assoc, append-nil)

-- the layout of the canonical bytes
mutation_payload-fields :
    (r : MutationRequest) (a : Actor) (e : Execution)
    → mutation_payload r a e
      ≡ field (some (display r.item_id))
        ++ (be_bytes r.expected_revision ++ fields (intent_fields r a e))
unfolding mutation_payload fields
mutation_payload-fields r a e = simp (
  append_execution-fields, append_texts-fields, append_triage-fields, append_field-field,
  fields-append, append_assoc, append-nil,
)

lifecycle-injective :
    (l m : Option LifecycleMutation)
    → lifecycle_field l ≡ lifecycle_field m
    → reason_field l ≡ reason_field m
    → l ≡ m
lifecycle-injective none none h k = refl
lifecycle-injective (some approve_item) (some approve_item) h k = refl
lifecycle-injective _ _ h k = ground arith

priority-injective : (v w : TriageField Priority) → priority_field v ≡ priority_field w → v ≡ w
priority-injective omitted omitted h = refl
priority-injective (set p0) (set p0) h = refl
priority-injective (set p1) (set p1) h = refl
priority-injective _ _ h = ground arith

abbrev pub clear_name : AssigneeId
clear_name = record { as_str = codes "clear" }

-- the two assignee fields that have one encoding
abbrev pub Confused : TriageField AssigneeId → TriageField AssigneeId → Type 0
Confused v w = (v ≡ clear) × (w ≡ set clear_name)

abbrev pub SameAssignee : TriageField AssigneeId → TriageField AssigneeId → Type 0
SameAssignee v w = (v ≡ w) ⊎ (Confused v w ⊎ Confused w v)

assignee-injective :
    (v w : TriageField AssigneeId) → assignee_field v ≡ assignee_field w → SameAssignee v w
assignee-injective omitted omitted h = inl refl
assignee-injective clear clear h = inl refl
assignee-injective (set a) (set b) h = inl (ground arith)
assignee-injective clear (set b) h = inr (inl (ground arith))
assignee-injective (set a) clear h = inr (inr (ground arith))
assignee-injective omitted clear h = cc
assignee-injective omitted (set b) h = cc
assignee-injective clear omitted h = cc
assignee-injective (set a) omitted h = cc

abbrev pub SameTriage : Option Triage → Option Triage → Type 0
SameTriage none none = Unit
SameTriage (some t) (some u) =
    (t.priority ≡ u.priority) × SameAssignee t.assignee u.assignee × (t.note ≡ u.note)
SameTriage _ _ = ⊥

-- a request whose texts and revision fit 64-bit lengths, under a canonical item identity
pub record IsWire (r : MutationRequest) (a : Actor) (e : Execution) : Type 0 where
  pub id : IsCanonicalId r.item_id
  pub id_field : IsField (some (display r.item_id))
  pub revision : r.expected_revision < 2 ^ 64
  pub fields : All IsField (intent_fields r a e)

abbrev pub with_triage : MutationRequest → Triage → MutationRequest
with_triage r t = record r {
  mutation = record { lifecycle = r.mutation.lifecycle; triage = some t };
}

two_tails : {A : Type 0} {x y x' y' : A} (xs ys : List A) → x ∷ x' ∷ xs ≡ y ∷ y' ∷ ys → xs ≡ ys
two_tails xs ys h = cc

some_eq : {s t : Text} → ◌≡◌ {A = Option Text} (some s) (some t) → s ≡ t
some_eq h = cc

pub record SameIntent (r s : MutationRequest) (a b : Actor) (e f : Execution) : Type 0 where
  pub item_id : r.item_id ≡ s.item_id
  pub expected_revision : r.expected_revision ≡ s.expected_revision
  pub lifecycle : r.mutation.lifecycle ≡ s.mutation.lifecycle
  pub triage : SameTriage r.mutation.triage s.mutation.triage
  pub actor : a ≡ b
  pub execution : e ≡ f

triage-injective :
    (t u : Option Triage) (a b : Actor) (e f : Execution)
    → triage_fields t ++ (actor_fields a ++ execution_fields e)
      ≡ triage_fields u ++ (actor_fields b ++ execution_fields f)
    → SameTriage t u × (actor_fields a ++ execution_fields e ≡ actor_fields b ++ execution_fields f)
triage-injective none none a b e f h = (tt, cc)
triage-injective none (some u) a b e f h = cc
triage-injective (some t) none a b e f h = cc
triage-injective (some t) (some u) a b e f h = (
  (
    priority-injective t.priority u.priority (cc),
    assignee-injective t.assignee u.assignee (cc),
    cc,
  ),
  cc,
)

kind-injective : (k l : ActorKind) → kind_name k ≡ kind_name l → k ≡ l
kind-injective human human h = refl
kind-injective agent agent h = refl
kind-injective human agent h = ground arith
kind-injective agent human h = ground arith

attribution-injective :
    (a b : Actor) (e f : Execution)
    → actor_fields a ++ execution_fields e ≡ actor_fields b ++ execution_fields f
    → (a ≡ b) × (e ≡ f)
attribution-injective a b (direct s h) (direct t i) eq =
    ground (arith, kind-injective a.kind b.kind)
attribution-injective a b (direct s h) (agent_execution j t i) eq = cc
attribution-injective a b (agent_execution j s h) (direct t i) eq = cc
attribution-injective a b (agent_execution j s h) (agent_execution k t i) eq =
    ground (arith, kind-injective a.kind b.kind)

-- Two requests with the same canonical bytes have the same item, revision, lifecycle action, reason,
-- priority, note, actor and execution, and the same assignee field, except that clearing the
-- assignee and assigning to one named "clear" are not told apart.
pub mutation_payload-SameIntent :
    (r s : MutationRequest) (a b : Actor) (e f : Execution)
    → IsWire r a e
    → IsWire s b f
    → mutation_payload r a e ≡ mutation_payload s b f
    → SameIntent r s a b e f
mutation_payload-SameIntent r s a b e f hr hs h =
    let framed = sym (mutation_payload-fields r a e) ∙ h ∙ mutation_payload-fields s b f in
    let (id, after_id) = field-injective _ _ _ _ hr.id_field hs.id_field framed in
    let (rev, after_rev) = be_bytes-injective _ _ _ _ hr.revision hs.revision after_id in
    let all = fields-injective _ _ hr.fields hs.fields after_rev in
    let (triage, rest) =
      triage-injective r.mutation.triage s.mutation.triage a b e f (two_tails _ _ all) in
    let (actor, execution) = attribution-injective a b e f rest in
    record {
      item_id = display-injective r.item_id s.item_id hr.id hs.id (some_eq id);
      expected_revision = rev;
      lifecycle = lifecycle-injective r.mutation.lifecycle s.mutation.lifecycle (cc) (cc);
      triage = triage;
      actor = actor;
      execution = execution;
    }

-- Whatever else a request asks for, clearing the assignee and assigning to one named "clear" have
-- the same canonical bytes.
pub mutation_payload_confused :
    (r : MutationRequest) (t : Triage) (a : Actor) (e : Execution)
    → mutation_payload (with_triage r (record t { assignee = clear })) a e
      ≡ mutation_payload (with_triage r (record t { assignee = set clear_name })) a e
mutation_payload_confused r t a e =
    mutation_payload-fields (with_triage r (record t { assignee = clear })) a e
    ∙ sym (mutation_payload-fields (with_triage r (record t { assignee = set clear_name })) a e)
