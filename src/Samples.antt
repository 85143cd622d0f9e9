-- ===== src/Samples.antt =====
-- An item, requests on it and a store that holds it, for the tests.
use bif.Base.{true, false, [], ◌∷◌, none, some, map}
use bif.Base.Text.{Text, codes}
use bif.Domain.Item.{Item, ItemId, ready, p1, local}
use bif.Domain.Mutation.{ItemMutation, start_item, block_item, finish_item}
use bif.Domain.Triage.{omitted, clear}
use bif.Application.Authorize.{Actor, human, Execution, agent_execution}
use bif.Application.Request.{MutationRequest}
use bif.Storage.Codec.{item_columns, provenance_columns}
use bif.Storage.Db.{Db}
use bif.Storage.Migration.{migrations, recorded}
use bif.Storage.Session.{ReadStoreState}
use bif.Storage.Mutate.{Call}

abbrev pub item_id : ItemId
item_id = record {
  requester = record { as_str = codes "DAVIS" };
  project = record { as_str = codes "bif" };
  sequence = 7;
}

abbrev pub item : Item
item = record {
  id = item_id;
  content = record {
    title = codes "Keep the journal";
    description = none;
    acceptance_criteria = codes "covered" ∷ [];
  };
  status = ready;
  priority = some p1;
  assignee = none;
  status_reason = none;
  revision = 2;
  captured_at = codes "2026-01-01T00:00:00Z";
  updated_at = codes "2026-01-02T00:00:00Z";
  provenance = record {
    source_host = some local;
    thread_id = none;
    message_id = none;
    url = none;
    repository_reference = none;
    revision_reference = none;
    context_excerpt = none;
  };
}

abbrev pub start_and_note : ItemMutation
start_and_note = record {
  lifecycle = some start_item;
  triage = some (record { priority = clear; assignee = omitted; note = some (codes "begun") });
}

abbrev pub block : ItemMutation
block = record { lifecycle = some (block_item (codes "waiting")); triage = none }

abbrev pub finish : ItemMutation
finish = record { lifecycle = some finish_item; triage = none }

abbrev pub davis : Actor
davis = record { kind = human; id = codes "davis"; surface = codes "cli"; host = codes "local" }

abbrev pub by_codex : Execution
by_codex = agent_execution (codes "codex-1") (codes "cli") (codes "local")

abbrev pub request : MutationRequest
request = record {
  idempotency_key = codes "key-1";
  item_id = item_id;
  expected_revision = 2;
  mutation = start_and_note;
}

abbrev pub call : Call
call = record {
  request = request;
  payload_hash = codes "abc";
  actor = davis;
  execution = by_codex;
  occurred_at = codes "2026-01-03T00:00:00Z";
  identity = record {
    operation_id = codes "op-1";
    event_ids = codes "ev-1" ∷ codes "ev-2" ∷ codes "ev-3" ∷ [];
  };
}

abbrev pub other_call : Call
other_call = record call {
  request = record request { idempotency_key = codes "key-2" };
  identity = record { operation_id = codes "op-2"; event_ids = codes "ev-4" ∷ [] };
}

abbrev pub generation : Text
generation = codes "0123456789abcdef0123456789abcdef"

abbrev pub pinned : ReadStoreState
pinned = record {
  store_id = codes "store";
  generation = generation;
  schema_version = 9;
  migrations = map (recorded (codes "t0")) migrations;
}

abbrev pub db : Db
db = record {
  identity = record {
    store_id = codes "store";
    schema_version = 9;
    migrations = map (recorded (codes "t0")) migrations;
  };
  metadata = record {
    generation = generation;
    retention_floor = 0;
    high_water = 0;
    sync_enabled = true;
    bootstrap_required = false;
  };
  projects = codes "bif" ∷ [];
  counters = [];
  items = record { item_id = codes "DAVIS:bif:007"; columns = item_columns item } ∷ [];
  criteria =
      record { item_id = codes "DAVIS:bif:007"; criterion_index = 0; criterion = codes "covered" }
      ∷ [];
  provenance =
      record { item_id = codes "DAVIS:bif:007"; columns = provenance_columns item.provenance } ∷ [];
  operations = [];
  events = [];
  receipts = [];
  journal = [];
  allocator = 0;
}
