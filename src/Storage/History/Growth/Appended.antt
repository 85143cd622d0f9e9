-- ===== src/Storage/History/Growth/Appended.antt =====
-- The rows that a mutation adds to the events, and the history that they decode to.
use bif.Base.{
  ℕ, suc, ◌+◌, ◌≡◌, refl, sym, inl, inr, Bool, true, false, List, [], ◌∷◌, ◌++◌, ok, list_eq,
  nat_eq, All, arith, Bool-cases,
}
use bif.Base.Text.{Text}
use bif.Base.Int.{pos, as_i64_of_lt}
use bif.Domain.Item.{Item}
use bif.Domain.Item.Display.{display}
use bif.Domain.Mutation.{DomainEvent}
use bif.Application.Listing.{less}
use bif.Application.ReadSemantics.{is_greater}
use bif.Application.History.{ItemHistoryEvent}
use bif.Storage.Db.{EventEntry, select}
use bif.Storage.Events.{EventContext, event_entry}
use bif.Storage.Listing.{cmp_int}
use bif.Storage.Mutate.Commit.{event_entries}
use bif.Storage.History.RoundTrip.{IsIdentified, recorded, history_event-event_entry}
use bif.Storage.History.Queries.{cmp_rows, insert_row, order_rows, is_of, collect}
use bif.Storage.History.Pages.{no_fault, ok-injective, collect-cons, collect-shift}
use bif.Storage.History.Written.{IsReadable}

-- the events of the history that a mutation adds
abbrev pub added : EventContext → ℕ → List DomainEvent → List Text → List ItemHistoryEvent
added c index (event ∷ events) (event_id ∷ ids) =
    recorded c event_id index event ∷ added c (suc index) events ids
added c index _ _ = []

-- a row does not come after the first of some others
abbrev Precedes : EventEntry → List EventEntry → Type 0
Precedes x [] = Unit
Precedes x (y ∷ ys) = is_greater (cmp_rows x y) ≡ false

abbrev Ascending : List EventEntry → Type 0
Ascending [] = Unit
Ascending (y ∷ ys) = Precedes y ys × Ascending ys

insert_row-append :
    (x : EventEntry) (xs ys : List EventEntry)
    → Precedes x ys
    → insert_row x (xs ++ ys) ≡ insert_row x xs ++ ys
unfolding insert_row
insert_row-append x [] [] h = refl
insert_row-append x [] (y ∷ ys) h = rw h refl
insert_row-append x (z ∷ xs) ys h = ground (arith, insert_row-append x xs ys h)

order_rows-Ascending : (ys : List EventEntry) → Ascending ys → order_rows ys ≡ ys
unfolding order_rows insert_row
order_rows-Ascending [] h = refl
order_rows-Ascending (y ∷ []) h = refl
order_rows-Ascending (y ∷ z ∷ ys) h = rw (order_rows-Ascending (z ∷ ys) h.1, h.0) refl

pub order_rows-append :
    (xs ys : List EventEntry)
    → All (λ x. Precedes x ys) xs
    → Ascending ys
    → order_rows (xs ++ ys) ≡ order_rows xs ++ ys
unfolding order_rows
order_rows-append [] ys h a = order_rows-Ascending ys a
order_rows-append (x ∷ xs) ys h a =
    rw (order_rows-append xs ys h.1 a) (insert_row-append x (order_rows xs) ys h.0)

pub collect-append :
    (i : ℕ) (xs ys : List EventEntry) (a b : List ItemHistoryEvent)
    → collect no_fault i xs ≡ ok a
    → collect no_fault i ys ≡ ok b
    → collect no_fault i (xs ++ ys) ≡ ok (a ++ b)
unfolding collect
collect-append i [] ys a b h k = rw (sym (ok-injective h)) k
collect-append i (x ∷ xs) ys a b h k =
    let (event, rest, decoded, later, same) = collect-cons i x xs a h in
    rw (same, decoded, collect-append (suc i) xs ys rest b later (collect-shift i (suc i) ys b k))
      refl

module _ (c : EventContext) (r : ℕ) where
  pub collect-event_entries :
      (i index : ℕ) (events : List DomainEvent) (ids : List Text)
      → IsIdentified c.execution
      → All (IsReadable r) events
      → collect no_fault i (event_entries c index events ids) ≡ ok (added c index events ids)
  unfolding collect
  collect-event_entries i index [] ids h a = refl
  collect-event_entries i index (e ∷ events) [] h a = refl
  collect-event_entries i index (e ∷ events) (event_id ∷ ids) h ((w, before, after, _), a) =
      rw
        (
          (history_event-event_entry c event_id index e h w).1 (before, after),
          collect-event_entries (suc i) (suc index) events ids h a,
        )
        refl

  -- no row of an earlier revision comes after the rows at a revision
  Precedes-event_entries :
      (x : EventEntry) (index : ℕ) (events : List DomainEvent) (ids : List Text)
      → All (IsReadable r) events
      → cmp_int x.item_revision (pos r) ≡ less
      → Precedes x (event_entries c index events ids)
  unfolding event_entry
  Precedes-event_entries x index [] ids a h = tt
  Precedes-event_entries x index (e ∷ events) [] a h = tt
  Precedes-event_entries x index (e ∷ events) (event_id ∷ ids) ((w, _, _, at), a) h =
      rw (as_i64_of_lt e.item_revision w.revision_fits, at, h) refl

  pub Precedes-all :
      (xs : List EventEntry) (events : List DomainEvent) (ids : List Text)
      → All (IsReadable r) events
      → All (λ (x : EventEntry). cmp_int x.item_revision (pos r) ≡ less) xs
      → All (λ x. Precedes x (event_entries c 0 events ids)) xs
  Precedes-all [] events ids a h = tt
  Precedes-all (x ∷ xs) events ids a h =
      (Precedes-event_entries x 0 events ids a h.0, Precedes-all xs events ids a h.1)

  pub event_entries-Ascending :
      (index : ℕ) (events : List DomainEvent) (ids : List Text)
      → All (IsReadable r) events
      → Ascending (event_entries c index events ids)
  unfolding event_entry
  event_entries-Ascending index [] ids a = tt
  event_entries-Ascending index (e ∷ events) [] a = tt
  event_entries-Ascending index (e ∷ []) (event_id ∷ ids) a = (tt, tt)
  event_entries-Ascending index (e ∷ f ∷ events) (event_id ∷ []) a = (tt, tt)
  event_entries-Ascending index (e ∷ f ∷ events) (event_id ∷ next_id ∷ ids) ((w, _, _, at), a) =
      let (v, _, _, next_at) = a.0 in
      (
        rw
            (
              as_i64_of_lt e.item_revision w.revision_fits,
              as_i64_of_lt f.item_revision v.revision_fits,
              at,
              next_at,
            )
            (ground arith),
        event_entries-Ascending (suc index) (f ∷ events) (next_id ∷ ids) a,
      )

  pub select-event_entries :
      (index : ℕ) (events : List DomainEvent) (ids : List Text)
      → select (is_of c.item_id) (event_entries c index events ids)
        ≡ event_entries c index events ids
  unfolding select event_entry
  select-event_entries index [] ids = refl
  select-event_entries index (e ∷ events) [] = refl
  select-event_entries index (e ∷ events) (event_id ∷ ids) =
      ground (arith, select-event_entries (suc index) events ids)

pub select-append :
    (p : EventEntry → Bool) (xs ys : List EventEntry)
    → select p (xs ++ ys) ≡ select p xs ++ select p ys
unfolding select
select-append p [] ys = refl
select-append p (x ∷ xs) ys = ground (arith, select-append p xs ys)

-- the rows of an item are of revisions that it has had
abbrev pub IsPast : Item → EventEntry → Type 0
IsPast item e =
    is_of (display item.id) e ≡ true → cmp_int e.item_revision (pos (item.revision + 1)) ≡ less

pub select-IsPast :
    (item : Item) (rows : List EventEntry)
    → All (IsPast item) rows
    → All
        (λ (e : EventEntry). cmp_int e.item_revision (pos (item.revision + 1)) ≡ less)
        (select (is_of (display item.id)) rows)
unfolding select
select-IsPast item [] a = tt
select-IsPast item (row ∷ rows) (h, a) = elim (Bool-cases (is_of (display item.id) row)) [
  | inl e ↦ rw e (h e, select-IsPast item rows a)
  | inr e ↦ rw e (select-IsPast item rows a)
]
