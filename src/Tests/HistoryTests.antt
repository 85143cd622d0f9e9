-- ===== src/Tests/HistoryTests.antt =====
-- src/storage.rs and src/storage/history_pages.rs: the history of the item of the small store.
use bif.Base.{
  ◌≡◌, ◌++◌, ◌↔◌, refl, false, List, [], ◌∷◌, none, some, ok, arith, list_eq, nat_eq, List-discrete,
  ℕ_discrete, ltb, length,
}
use bif.Base.Text.{codes, to_lower}
use bif.Base.Int.{as_i64}
use bif.Samples.{item, item_id, call, db, pinned}
use bif.Domain.Item.{new_revision}
use bif.Domain.Item.Display.{display, to_decimal, padded, digits}
use bif.Domain.Identifier.{new_assignee, normalize_identifier, normalize_loop, fold_case}
use bif.Domain.Mutation as M
use bif.Domain.Mutation.{DomainEvent}
use bif.Application.History.{ItemHistoryEvent, HistoryPageRequest}
use bif.Storage.Codec.{parse_status, parse_priority, status_text, priority_text}
use bif.Storage.Db.{find, select, update}
use bif.Storage.Events.{event_entry, event_type, event_value}
use bif.Storage.Mutate.{context}
use bif.Storage.Mutate.Stored
use bif.Storage.History.{
  history_row, history_event, parse_history_event_type, parse_history_status,
  parse_history_priority, parse_history_value, parse_typed_value,
}
use bif.Storage.History.RoundTrip.{recorded, IsNamed, IsWritable, history_event-event_entry}
use bif.Storage.History.Queries.{order_rows, insert_row, collect, item_history, select_history_page}
use bif.Storage.History.Pages.{no_fault, behind, take, select_history_page-item_history}
use bif.Storage.History.Growth.{AddedBy, mutate-item_history}
use bif.Storage.History.Growth.Appended.{added}
use bif.Tests.StorageTests.{
  started, events, after, starts, db-IsCovered, db-IsStored, item-IsStorable,
}

abbrev three : List ItemHistoryEvent
three = added (context call started) 0 events call.identity.event_ids

none_yet : item_history no_fault item_id db ≡ ok []
unfolding item_history find display List-discrete ℕ_discrete padded to_decimal digits select
    order_rows collect
none_yet = refl

mutate-item_history_example :
    (more : List ItemHistoryEvent) × (item_history no_fault item_id after ≡ ok ([] ++ more))
    × AddedBy call item db after more
unfolding ℕ_discrete List-discrete normalize_identifier normalize_loop
mutate-item_history_example =
    mutate-item_history Stored.no_fault pinned call db after
      (record { item = started; replayed = false }) item [] db-IsCovered db-IsStored item-IsStorable
      refl refl tt tt (ground arith) tt none_yet starts

read_after : item_history no_fault item_id after ≡ ok three
unfolding item_history find display List-discrete ℕ_discrete padded to_decimal digits select
    order_rows insert_row collect history_event history_row parse_history_event_type
    parse_history_status parse_history_priority parse_history_value parse_typed_value update
    event_entry event_type event_value parse_status parse_priority status_text priority_text
    new_revision as_i64
read_after = refl

-- the page of one event behind the first
abbrev behind_first : HistoryPageRequest
behind_first = record {
  item_id = item_id;
  page = record { limit = 1; after = some (record { item_revision = 3; event_index = 0 }) };
}

select_history_page-item_history_example :
    let rest = behind behind_first.page.after three in
    select_history_page no_fault behind_first after
    ≡ ok (record { records = take 1 rest; has_more = ltb 1 (length rest) })
unfolding event_entry as_i64
select_history_page-item_history_example =
    select_history_page-item_history behind_first after three
      ((refl, omega arith), ((refl, omega arith), ((refl, omega arith), tt))) read_after

one_left :
    take 1 (behind behind_first.page.after three) ≡ elim three [ [] ↦ [] | x ∷ xs ↦ take 1 xs ]
unfolding ℕ_discrete
one_left = refl

abbrev assigned : DomainEvent
assigned = record {
  event_type = M.assignee_changed;
  item_revision = 3;
  before = some (M.assignee none);
  after = some (M.assignee (some (record { as_str = codes "null" })));
}

-- an assignee named `null` is one that the domain accepts
null_is_assignee : new_assignee (codes "null") ≡ ok (record { as_str = codes "null" })
unfolding new_assignee normalize_identifier normalize_loop fold_case to_lower ℕ_discrete
null_is_assignee = refl

assigned-IsWritable : IsWritable assigned
unfolding normalize_identifier normalize_loop fold_case to_lower ℕ_discrete
assigned-IsWritable = record {
  revision = ground arith;
  revision_fits = omega arith;
  before = tt;
  after = refl;
}

history_event-event_entry_example :
    (history_event (history_row (event_entry (context call started) (codes "ev") 0 assigned))
      ≡ ok (recorded (context call started) (codes "ev") 0 assigned))
    ↔ (IsNamed assigned.before × IsNamed assigned.after)
unfolding List-discrete ℕ_discrete
history_event-event_entry_example =
    history_event-event_entry (context call started) (codes "ev") 0 assigned refl
      assigned-IsWritable

-- so its assignment is not read back
null_is_lost : ¬ (
    history_event (history_row (event_entry (context call started) (codes "ev") 0 assigned))
    ≡ ok (recorded (context call started) (codes "ev") 0 assigned))
unfolding List-discrete ℕ_discrete
null_is_lost = λ h.
    ((history_event-event_entry (context call started) (codes "ev") 0 assigned refl
          assigned-IsWritable).0
        h).1
      refl
