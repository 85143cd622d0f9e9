-- ===== src/Tests/ApplicationTests.antt =====
-- src/application.rs: the theorems on requests, and what the functions return for them.
use bif.Base.{◌≡◌, ◌↔◌, refl, true, List, [], ◌∷◌, Option, none, some, ok, arith, All}
use bif.Base.Text.{Text, codes, utf8, encode_char}
use bif.Domain.Item.Display.{display, to_decimal, padded, digits}
use bif.Samples.{request, davis, by_codex}
use bif.Domain.Triage.{Triage, omitted, clear, set}
use bif.Application.Authorize.{
  AuthorizationRequest, mutation, observed_agent, explicit_instruction, authorize,
}
use bif.Application.Authorize.Policy.{Allowed, authorize_iff}
use bif.Application.Request.{MutationRequest}
use bif.Application.Payload.{mutation_payload}
use bif.Application.Payload.Fields.{IsField}
use bif.Application.Payload.Intent.{
  IsWire, SameIntent, clear_name, with_triage, mutation_payload-SameIntent,
  mutation_payload_confused,
}

abbrev asked : AuthorizationRequest
asked = record {
  actor = davis;
  execution = by_codex;
  observed_execution = observed_agent (codes "codex-1");
  command = mutation (codes "start" ∷ []);
  human_authorization = some (
      explicit_instruction (record {
        instruction_id = codes "i-1";
        instruction_text = codes "start it";
        authorized_changes = codes "start" ∷ codes "finish" ∷ [];
        trusted = true;
      }));
}

authorize_iff_example : (authorize asked ≡ ok tt) ↔ Allowed asked
authorize_iff_example = authorize_iff asked

abbrev triage : Triage
triage = record { priority = omitted; assignee = omitted; note = none }

abbrev clears : MutationRequest
clears = with_triage request (record triage { assignee = clear })

abbrev assigns : MutationRequest
assigns = with_triage request (record triage { assignee = set clear_name })

mutation_payload_confused_example :
    mutation_payload clears davis by_codex ≡ mutation_payload assigns davis by_codex
mutation_payload_confused_example = mutation_payload_confused request triage davis by_codex

clears-IsWire : IsWire clears davis by_codex
unfolding display to_decimal padded digits utf8 encode_char
clears-IsWire = record {
  id = (refl, refl);
  id_field = ground arith;
  revision = ground arith;
  fields = ground arith;
}

assigns-IsWire : IsWire assigns davis by_codex
unfolding utf8 encode_char
assigns-IsWire = record {
  id = (refl, refl);
  id_field = clears-IsWire.id_field;
  revision = ground arith;
  fields = ground arith;
}

mutation_payload-SameIntent_example : SameIntent clears assigns davis davis by_codex by_codex
mutation_payload-SameIntent_example =
    mutation_payload-SameIntent clears assigns davis davis by_codex by_codex clears-IsWire
      assigns-IsWire (mutation_payload_confused request triage davis by_codex)

abbrev two : List (Option Text)
two = none ∷ some (codes "a") ∷ []

two-IsField : All IsField two
unfolding utf8 encode_char
two-IsField = ground arith
