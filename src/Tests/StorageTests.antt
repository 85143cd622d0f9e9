-- ===== src/Tests/StorageTests.antt =====
-- src/storage.rs and src/storage/: the theorems on a small store, and what its operations return.
use bif.Base.{
  ℕ_discrete, Option-discrete, List-discrete, ◌≡◌, ◌≢◌, refl, true, false, List, [], ◌∷◌, Option,
  none, some, ok, err, arith, list_eq, nat_eq,
}
use bif.Base.Text.{codes, to_upper, to_lower}
use bif.Samples.{item, call, other_call, db, pinned}
use bif.Domain.Item.{
  Item, new_item_id, new_content, new_revision, set_updated_at, Status-discrete, Priority-discrete,
  in_progress, ready, p1,
}
use bif.Domain.Mutation as M
use bif.Domain.Mutation.{
  DomainEvent, EventValue, status, priority, note, apply_mutation, plan, commit, plan_lifecycle,
  plan_triage, run_lifecycle,
}
use bif.Domain.Item.Display.{display, to_decimal, padded, digits}
use bif.Application.Request.{idempotency_conflict, version_conflict, busy}
use bif.Storage.Codec.{
  SqliteError, database_busy, item_columns, provenance_columns, decode_item, status_text,
  priority_text, parse_status, parse_priority, parse_source_host, source_host_text,
}
use bif.Storage.Codec.RoundTrip.{IsStorable}
use bif.Storage.Db.{
  Db, find_receipt, find, update, select, update_item, insert_operation, insert_event,
  insert_receipt,
}
use bif.Storage.Session.{check_write_state, judge_state, read_store_state, same_state, is_busy}
use bif.Domain.Identifier.{
  new_requester, new_project, normalize_identifier, normalize_loop, fold_case,
}
use bif.Base.Int.{as_i64, ℤ-discrete}
use bif.Domain.Triage.{triage}
use bif.Domain.Lifecycle.{start, transition}
use bif.Storage.Events.{event_entry, event_type, event_value, mutation_reason, mutation_type}
use bif.Storage.Journal.{parse_generation, read_metadata, append_change, insert_change, max_seq}
use bif.Storage.Journal.Coverage.{IsCovered}
use bif.Storage.Mutate.{
  Statement, commit_changes, Call, mutate, body, apply_request, from_sqlite, load_item,
  record_changes, write_changes, insert_events, item_update,
}
use bif.Storage.Mutate.Commit.{committed}
use bif.Storage.Mutate.Answers.{Answers, left, mutate-ok}
use bif.Storage.Mutate.Retry.{mutate-retry}
use bif.Storage.Mutate.Conflict.{mutate_stale, mutate-IsStored}
use bif.Storage.Mutate.Stored.{IsStored, no_fault}

abbrev pub started : Item
started = record item {
  status = in_progress;
  priority = none;
  revision = 3;
  updated_at = codes "2026-01-03T00:00:00Z";
}

abbrev pub events : List DomainEvent
events =
    record {
      event_type = M.started;
      item_revision = 3;
      before = some (status ready);
      after = some (status in_progress);
    }
    ∷ record {
      event_type = M.priority_changed;
      item_revision = 3;
      before = some (priority (some p1));
      after = some (priority none);
    }
    ∷ record {
      event_type = M.note_added;
      item_revision = 3;
      before = none;
      after = some (note (codes "begun"));
    }
    ∷ []

abbrev pub after : Db
after = committed call started events 1 (codes "bif") db

pub starts :
    mutate no_fault pinned call db ≡ (after, ok (record { item = started; replayed = false }))
unfolding mutate check_write_state judge_state read_store_state same_state find update select
    load_item body apply_request decode_item display parse_generation ℕ_discrete List-discrete
    padded to_decimal digits new_requester normalize_identifier normalize_loop fold_case to_upper
    to_lower item_columns new_project as_i64 new_item_id new_content provenance_columns
    parse_source_host source_host_text parse_status status_text ℤ-discrete Option-discrete
    Priority-discrete Status-discrete new_revision set_updated_at start transition apply_mutation
    plan commit plan_lifecycle plan_triage run_lifecycle triage parse_priority priority_text
    insert_event insert_operation insert_receipt update_item event_entry event_type event_value
    mutation_reason mutation_type append_change insert_change max_seq read_metadata insert_events
    item_update record_changes write_changes
starts = refl

pub db-IsCovered : IsCovered db
unfolding parse_generation ℕ_discrete
db-IsCovered = record {
  generation = refl;
  floor = omega arith;
  fits = omega arith;
  allocator = refl;
  covers = refl;
}

pub db-IsStored : IsStored db item
unfolding find display List-discrete ℕ_discrete padded to_decimal digits select
db-IsStored = record { row = refl; provenance = refl; criteria = refl }

pub item-IsStorable : IsStorable item
item-IsStorable = record {
  id = (refl, refl);
  sequence = ground arith;
  sequence_fits = ground arith;
  title = refl;
  assignee = tt;
  revision = ground arith;
  revision_fits = ground arith;
}

-- a transaction whose COMMIT finds the database busy
abbrev busy_at_commit : Statement → Option SqliteError
busy_at_commit commit_changes = some database_busy
busy_at_commit s = none

mutate-ok_example :
    (check_write_state none pinned db ≡ ok true)
    × ((next : Option Db) × (after ≡ left db next)
        × Answers no_fault call db (record { item = started; replayed = false }) next)
mutate-ok_example =
    mutate-ok no_fault pinned call db after (record { item = started; replayed = false })
      db-IsCovered starts

started-IsStorable : IsStorable started
started-IsStorable = record {
  id = (refl, refl);
  sequence = ground arith;
  sequence_fits = ground arith;
  title = refl;
  assignee = tt;
  revision = ground arith;
  revision_fits = ground arith;
}

after_has_receipt : find_receipt (codes "key-1") after ≢ none
unfolding find ℕ_discrete List-discrete
after_has_receipt = λ e. cc

-- the same key with another payload
abbrev conflicting : Call
conflicting = record other_call {
  request = record other_call.request { idempotency_key = codes "key-1" };
  payload_hash = codes "def";
}

mutate-retry_example : mutate no_fault pinned conflicting after ≡ (after, err idempotency_conflict)
unfolding ℕ_discrete List-discrete
mutate-retry_example =
    mutate-retry no_fault pinned call conflicting db after item
      (record { item = started; replayed = false }) db-IsCovered db-IsStored refl item-IsStorable
      started-IsStorable starts after_has_receipt refl

after_changed : after ≢ db
after_changed = λ e. cc

other_is_new : find_receipt (codes "key-2") after ≡ none
unfolding find ℕ_discrete List-discrete
other_is_new = refl

mutate_stale_example : mutate no_fault pinned other_call after ≡ (after, err version_conflict)
mutate_stale_example =
    mutate_stale no_fault pinned call other_call db after item
      (record { item = started; replayed = false }) db-IsCovered db-IsStored refl item-IsStorable
      started-IsStorable starts after_changed refl refl other_is_new

mutate-IsStored_example :
    IsStored after started × (started.id ≡ item.id) × (item.revision ≡ 2) × (started.revision ≡ 3)
mutate-IsStored_example =
    mutate-IsStored no_fault pinned call db after item (record { item = started; replayed = false })
      db-IsCovered db-IsStored refl item-IsStorable starts after_changed

refused_at_commit : mutate busy_at_commit pinned call db ≡ (db, err (busy database_busy))
unfolding mutate check_write_state judge_state read_store_state same_state find update select
    load_item body apply_request decode_item display parse_generation ℕ_discrete List-discrete
    padded to_decimal digits new_requester normalize_identifier normalize_loop fold_case to_upper
    to_lower item_columns new_project as_i64 new_item_id new_content provenance_columns
    parse_source_host source_host_text parse_status status_text ℤ-discrete Option-discrete
    Priority-discrete Status-discrete new_revision set_updated_at start transition apply_mutation
    plan commit plan_lifecycle plan_triage run_lifecycle triage parse_priority priority_text
    insert_event insert_operation insert_receipt update_item event_entry event_type event_value
    mutation_reason mutation_type append_change insert_change max_seq read_metadata insert_events
    item_update record_changes write_changes from_sqlite is_busy
refused_at_commit = refl
