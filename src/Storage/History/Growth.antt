-- ===== src/Storage/History/Growth.antt =====
-- The history of an item after a mutation of it.
pub mod Appended
use bif.Base.{
  ℕ, suc, ◌+◌, ◌^◌, ◌<◌, ◌≡◌, refl, sym, ap, subst, ◌∙◌, ◌⊎◌, inl, inr, Bool, true, false, List, [],
  ◌∷◌, ◌++◌, append-nil, Option, ok, list_eq, nat_eq, All, arith, Bool-cases,
}
use bif.Base.Text.{Text}
use bif.Base.Int.{pos, as_i64_of_lt}
use bif.Domain.Item.{Item, set_updated_at}
use bif.Domain.Item.Display.{display}
use bif.Domain.Mutation.{DomainEvent, apply_mutation}
use bif.Domain.Mutation.Laws.{apply_mutation-Evolves}
use bif.Application.Listing.{less}
use bif.Application.ReadSemantics.{is_greater}
use bif.Application.History.{ItemHistoryEvent}
use bif.Storage.Db.{Db, EventEntry, select, exists, find, update, is_item, ItemEntry}
use bif.Storage.Codec.{ItemColumns, SqliteError}
use bif.Storage.Events.{EventContext, event_entry}
use bif.Storage.Listing.{cmp_int}
use bif.Storage.Mutate
use bif.Storage.Mutate.{Call, context, item_update, mutate}
use bif.Storage.Mutate.Answers.{Answers, mutate-ok, left}
use bif.Storage.Mutate.Stored.{IsStored, load_item-same}
use bif.Storage.Journal.Coverage.{IsCovered}
use bif.Storage.Session.{ReadStoreState}
use bif.Storage.Codec.RoundTrip.{IsStorable}
use bif.Application.Request.{MutationResult}
use bif.Storage.Mutate.Commit.{event_entries, committed}
use bif.Storage.History.RoundTrip.{IsIdentified, recorded, history_event-event_entry}
use bif.Storage.History.Queries.{cmp_rows, insert_row, order_rows, is_of, collect, item_history}
use bif.Storage.History.Pages.{
  no_fault, ok-injective, collect-cons, collect-shift, item_history-collect,
}
use bif.Storage.History.Written.{IsAssignable, Assigns, IsReadable, apply_mutation-IsReadable}
use bif.Storage.History.Growth.Appended.{
  added, order_rows-append, collect-append, collect-event_entries, Precedes-all,
  event_entries-Ascending, select-event_entries, select-append, IsPast, select-IsPast,
}

exists-updated :
    (id other : Text) (f : ItemColumns → ItemColumns) (items : List ItemEntry)
    → exists (find (is_item id) items) ≡ true
    → exists
        (find (is_item id) (update (is_item other) (λ e. record e { columns = f e.columns }) items))
      ≡ true
unfolding find update
exists-updated id other f [] h = h
exists-updated id other f (e ∷ items) h = ground (arith, exists-updated id other f items)

-- the history of an item in the store that a mutation leaves
committed-item_history :
    (call : Call) (item planned : Item) (events : List DomainEvent) (seq : ℕ) (project_id : Text)
    (db : Db) (history : List ItemHistoryEvent)
    → IsIdentified call.execution
    → IsAssignable item.assignee
    → Assigns call.request.mutation.triage
    → item.revision + 1 < 2 ^ 63
    → All (IsPast item) db.events
    → apply_mutation call.request.mutation item ≡ (planned, ok events)
    → item_history no_fault item.id db ≡ ok history
    → let new = set_updated_at call.occurred_at planned in
      item_history no_fault item.id (committed call new events seq project_id db)
      ≡ ok (history ++ added (context call new) 0 events call.identity.event_ids)
unfolding item_history
committed-item_history call item planned events seq project_id db history i h k f past e was =
    let new = set_updated_at call.occurred_at planned in
    let c = context call new in
    let rows = event_entries c 0 events call.identity.event_ids in
    let readable = apply_mutation-IsReadable call.request.mutation item planned events h k f e in
    let (is, all) = item_history-collect item.id db history was in
    let kept = (apply_mutation-Evolves call.request.mutation item planned events e).same in
    let own : is_of c.item_id ≡ is_of (display item.id) =
      unfold set_updated_at in ap (λ id. is_of (display id)) kept.id in
    let olds = select (is_of (display item.id)) db.events in
    let mine : select (is_of (display item.id)) rows ≡ rows =
      subst (λ p. select p rows ≡ rows) own
        (select-event_entries c (item.revision + 1) 0 events call.identity.event_ids) in
    let order : order_rows (select (is_of (display item.id)) (db.events ++ rows))
        ≡ order_rows olds ++ rows =
      ap order_rows
        (select-append (is_of (display item.id)) db.events rows ∙ ap (λ rs. olds ++ rs) mine)
      ∙ order_rows-append olds rows
          (Precedes-all c (item.revision + 1) olds events call.identity.event_ids readable
            (select-IsPast item db.events past))
          (event_entries-Ascending c (item.revision + 1) 0 events call.identity.event_ids
            readable) in
    let new_rows =
      collect-event_entries c (item.revision + 1) 0 0 events call.identity.event_ids i readable in
    let read =
      collect-append 0 (order_rows olds) rows history (added c 0 events call.identity.event_ids) all
        new_rows in
    rw
      (
        exists-updated (display item.id) (display new.id) (item_update new call.occurred_at)
            db.items is,
        order,
        read,
      )
      refl

-- what a mutation has added to the history: nothing, on a store left alone, or the domain's events
abbrev pub AddedBy : Call → Item → Db → Db → List ItemHistoryEvent → Type 0
AddedBy call item db after more =
    ((more ≡ []) × (after ≡ db))
    ⊎ ((planned : Item) × (events : List DomainEvent) × (apply_mutation call.request.mutation item
          ≡ (planned, ok events))
        × (more
            ≡ added (context call (set_updated_at call.occurred_at planned)) 0 events
                call.identity.event_ids))

-- Whatever `mutate` answers, the history of the item afterwards is the one before with the domain's
-- events of this call behind it, each as the domain has made it and with who has done it and how; or
-- the same one, on a store left alone. The journal is covered, the item stored, its earlier events
-- of revisions up to its own, its next revision fits a column, an agent has a name, and no assignee
-- is named `null`.
pub mutate-item_history :
    (fault : Mutate.Statement → Option SqliteError) (pinned : ReadStoreState) (call : Call)
    (db after : Db) (result : MutationResult) (item : Item) (history : List ItemHistoryEvent)
    → IsCovered db
    → IsStored db item
    → IsStorable item
    → item.id ≡ call.request.item_id
    → IsIdentified call.execution
    → IsAssignable item.assignee
    → Assigns call.request.mutation.triage
    → item.revision + 1 < 2 ^ 63
    → All (IsPast item) db.events
    → item_history no_fault item.id db ≡ ok history
    → mutate fault pinned call db ≡ (after, ok result)
    → (more : List ItemHistoryEvent) × (item_history no_fault item.id after ≡ ok (history ++ more))
      × AddedBy call item db after more
mutate-item_history fault pinned call db after result item history v s t own i h k f past was done =
    let (_, (next, to, answers)) = mutate-ok fault pinned call db after result v done in
    by_answer next to answers
  where
    Goal : Type 0
    Goal =
        (more : List ItemHistoryEvent) × (item_history no_fault item.id after
          ≡ ok (history ++ more))
        × AddedBy call item db after more

    unchanged : after ≡ db → Goal
    unchanged same = (
      [],
      subst (λ d. item_history no_fault item.id d ≡ ok (history ++ [])) (sym same)
          (was ∙ ap ok (sym (append-nil history))),
      inl (refl, same),
    )

    by_answer : (next : Option Db) → after ≡ left db next → Answers fault call db result next → Goal
    by_answer next to (inl (_, none_left)) = unchanged (to ∙ ap (left db) none_left)
    by_answer next to (inr (inl (_, none_left))) = unchanged (to ∙ ap (left db) none_left)
    by_answer next to (inr (inr (planned, events, (loaded, _, read, _, applied), _, _, wrote))) =
        let same = load_item-same fault call.request.item_id db item loaded s t own read in
        let made =
          subst (λ x. apply_mutation call.request.mutation x ≡ (planned, ok events)) same applied in
        let (entry, _, _, stored, _) = wrote in
        let new = set_updated_at call.occurred_at planned in
        let seq = db.metadata.high_water + 1 in
        let more = added (context call new) 0 events call.identity.event_ids in
        let at : after ≡ committed call new events seq entry.columns.project_id db =
          to ∙ ap (left db) stored in
        let read =
          committed-item_history call item planned events seq entry.columns.project_id db history i
            h k f past made was in
        (
          more,
          subst (λ d. item_history no_fault item.id d ≡ ok (history ++ more)) (sym at) read,
          inr (planned, events, made, refl),
        )
