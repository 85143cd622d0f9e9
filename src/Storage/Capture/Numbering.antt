-- ===== src/Storage/Capture/Numbering.antt =====
-- The numbers of the items: the counter of a requester and a project is above every number in use.
use bif.Base.{
  ℕ, ◌+◌, ◌^◌, ◌<◌, ◌≤◌, ◌≡◌, ◌≢◌, inl, inr, refl, sym, Bool, List, [], ◌∷◌, ◌++◌, Option, none,
  some, ok, err, arith, list_eq, nat_eq, if◌then◌else◌, subst, All, All-append, Bool-cases,
}
use bif.Base.Text.{Text}
use bif.Base.Int.{pos, as_i64_of_lt}
use bif.Domain.Item.{ItemId, new_capture}
use bif.Domain.Item.Display.{display, IsCanonicalId}
use bif.Application.Request.{CaptureResult}
use bif.Storage.Codec.{SqliteError, item_columns}
use bif.Storage.Db.{Db, CounterEntry, ItemEntry, find, update}
use bif.Storage.Db.Inserts.{find-append}
use bif.Storage.Db.Captures.{is_counter, insert_project}
use bif.Storage.Journal.{max_i64}
use bif.Storage.Journal.Coverage.{IsCovered}
use bif.Storage.Session.{ReadStoreState}
use bif.Storage.Capture.{Statement, Call, Outcome, capture_inner, item_entry}
use bif.Storage.Capture.Commit.{with_capture}
use bif.Storage.Capture.Answers.{
  sequence_of, counted, counter_for, prepared, new_item, Answers, left, capture_inner-ok,
  capture_inner_err_unchanged,
}

abbrev pub find_in : Text → Text → List CounterEntry → Option CounterEntry
find_in requester project_id cs = find (is_counter requester project_id) cs

-- a row whose key spells its identity, and whose number a counter has left behind
abbrev pub Numbered : List CounterEntry → ItemEntry → Type 0
Numbered cs e =
    (id : ItemId) × (c : CounterEntry) × IsCanonicalId id
    × (e.item_id ≡ display id)
    × (e.columns.requester ≡ id.requester.as_str)
    × (e.columns.project_id ≡ id.project.as_str)
    × (e.columns.sequence ≡ pos id.sequence)
    × (find_in id.requester.as_str id.project.as_str cs ≡ some c)
    × (0 < id.sequence)
    × (id.sequence < c.next_sequence)

abbrev pub InRange : CounterEntry → Type 0
InRange c = (0 < c.next_sequence) × (c.next_sequence ≤ max_i64)

pub record IsNumbered (db : Db) : Type 0 where
  pub items : All (Numbered db.counters) db.items
  pub counters : All InRange db.counters

All-map :
    {A : Type 0} {P Q : A → Type 0} (xs : List A) → ((x : A) → P x → Q x) → All P xs → All Q xs
All-map [] f h = tt
All-map (x ∷ xs) f (p, h) = (f x p, All-map xs f h)

find-append_left :
    {A : Type 0} (p : A → Bool) (xs ys : List A) (x : A)
    → find p xs ≡ some x
    → find p (xs ++ ys) ≡ some x
unfolding find
find-append_left p [] ys x h = cc
find-append_left p (y ∷ xs) ys x h = ground (arith, find-append_left p xs ys x)

find-All :
    (P : CounterEntry → Type 0) (p : CounterEntry → Bool) (cs : List CounterEntry)
    (c : CounterEntry)
    → All P cs
    → find p cs ≡ some c
    → P c
unfolding find
find-All P p [] c a h = absurd (ground arith)
find-All P p (x ∷ cs) c a h = elim (Bool-cases (p x)) [
  | inl hit ↦ subst P (ground arith) a.0
  | inr miss ↦ find-All P p cs c a.1 (ground arith)
]

find-update_counter :
    (r p r' p' : Text) (n : ℕ) (cs : List CounterEntry) (c : CounterEntry)
    → find_in r p cs ≡ some c
    → find_in r p (update (is_counter r' p') (λ x. record x { next_sequence = n }) cs)
      ≡ some (if is_counter r' p' c then record c { next_sequence = n } else c)
unfolding find update
find-update_counter r p r' p' n [] c h = absurd (ground arith)
find-update_counter r p r' p' n (x ∷ cs) c h = ground (arith, find-update_counter r p r' p' n cs c)

find-counter_key :
    (r p : Text) (cs : List CounterEntry) (c : CounterEntry)
    → find_in r p cs ≡ some c
    → (c.requester ≡ r) × (c.project_id ≡ p)
unfolding find
find-counter_key r p [] c h = absurd (ground arith)
find-counter_key r p (x ∷ cs) c h = ground (arith, find-counter_key r p cs c)

-- a counter that is there stays, and never falls
counter_kept :
    (r p r' p' : Text) (current : Option CounterEntry) (cs : List CounterEntry) (c : CounterEntry)
    → find_in r' p' cs ≡ current
    → find_in r p cs ≡ some c
    → (c' : CounterEntry) × (find_in r p (counted r' p' current cs) ≡ some c')
      × (c.next_sequence ≤ c'.next_sequence)
counter_kept r p r' p' none cs c e h = (c, find-append_left (is_counter r p) cs _ c h, omega arith)
counter_kept r p r' p' (some c0) cs c e h =
    let moved = find-update_counter r p r' p' (c0.next_sequence + 1) cs c h in
    let key = find-counter_key r p cs c h in
    let key0 = find-counter_key r' p' cs c0 e in
    (
      if is_counter r' p' c then record c { next_sequence = c0.next_sequence + 1 } else c,
      moved,
      ground arith,
    )

-- the counter that has handed a number out stands above it
counter_moved :
    (r p : Text) (current : Option CounterEntry) (cs : List CounterEntry)
    → find_in r p cs ≡ current
    → (c' : CounterEntry) × (find_in r p (counted r p current cs) ≡ some c')
      × (c'.next_sequence ≡ sequence_of current + 1)
counter_moved r p none cs e = (
  record { requester = r; project_id = p; next_sequence = 2 },
  find-append (is_counter r p) cs _ e (ground arith),
  omega arith,
)
counter_moved r p (some c) cs e =
    let moved = find-update_counter r p r p (c.next_sequence + 1) cs c e in
    let key = find-counter_key r p cs c e in
    (record c { next_sequence = c.next_sequence + 1 }, ground arith, omega arith)

row_kept :
    (r p : Text) (current : Option CounterEntry) (cs : List CounterEntry) (e : ItemEntry)
    → find_in r p cs ≡ current
    → Numbered cs e
    → Numbered (counted r p current cs) e
row_kept r p current cs e at
      (id, c, canonical, key, requester, project, number, found, positive, below) =
    let (c', found', grown) =
      counter_kept id.requester.as_str id.project.as_str r p current cs c at found in
    (id, c', canonical, key, requester, project, number, found', positive, omega arith)

update-All :
    (r p : Text) (n : ℕ) (cs : List CounterEntry)
    → 0 < n
    → n ≤ max_i64
    → All InRange cs
    → All InRange (update (is_counter r p) (λ x. record x { next_sequence = n }) cs)
unfolding update
update-All r p n [] positive fits a = tt
update-All r p n (c ∷ cs) positive fits a = (ground arith, update-All r p n cs positive fits a.1)

counted-InRange :
    (r p : Text) (current : Option CounterEntry) (cs : List CounterEntry)
    → find_in r p cs ≡ current
    → sequence_of current ≢ max_i64
    → All InRange cs
    → All InRange (counted r p current cs)
counted-InRange r p none cs at below a = All-append InRange cs _ a ((omega arith, omega arith), tt)
counted-InRange r p (some c) cs at below a =
    let range = find-All InRange (is_counter r p) cs c a at in
    update-All r p (c.next_sequence + 1) cs (omega arith) (omega arith) a

new_row :
    (call : Call) (db : Db)
    → IsCanonicalId (new_item call db).id
    → sequence_of (counter_for call.request.input db) ≢ 0
    → sequence_of (counter_for call.request.input db) < 2 ^ 63
    → Numbered (prepared call db).counters (item_entry (new_item call db))
unfolding item_columns new_capture
new_row call db canonical positive fits =
    let input = call.request.input in
    let current = counter_for input db in
    let (c', found, next) =
      counter_moved input.requester.as_str input.project.as_str current db.counters refl in
    (
      (new_item call db).id,
      c',
      canonical,
      refl,
      refl,
      refl,
      as_i64_of_lt (sequence_of current) fits,
      found,
      omega arith,
      omega arith,
    )

pub sequence_fits :
    (r p : Text) (current : Option CounterEntry) (cs : List CounterEntry)
    → All InRange cs
    → find_in r p cs ≡ current
    → sequence_of current < 2 ^ 63
sequence_fits r p none cs a at = omega arith
sequence_fits r p (some c) cs a at =
    let range = find-All InRange (is_counter r p) cs c a at in omega arith

with_capture-IsNumbered :
    (call : Call) (db : Db)
    → IsCanonicalId (new_item call db).id
    → sequence_of (counter_for call.request.input db) ≢ 0
    → sequence_of (counter_for call.request.input db) ≢ max_i64
    → IsNumbered db
    → IsNumbered (with_capture call (new_item call db) (prepared call db))
unfolding insert_project
with_capture-IsNumbered call db canonical positive below n =
    let input = call.request.input in
    let current = counter_for input db in
    let r = input.requester.as_str in
    let p = input.project.as_str in
    let ranges = counted-InRange r p current db.counters refl below n.counters in
    let fits = sequence_fits r p current db.counters n.counters refl in
    record {
      items =
          All-append (Numbered (prepared call db).counters) db.items _
            (All-map db.items (λ e. row_kept r p current db.counters e refl) n.items)
            (new_row call db canonical positive fits, tt);
      counters = ranges;
    }

-- A capture of a canonical requester and project keeps the numbers of the items in order, however it
-- ends: every row of the store is the row of an id that the key spells, and the counter of that id's
-- requester and project stands above its number. No counter leaves the range of an INTEGER.
pub capture_inner-IsNumbered :
    (fault : Statement → Option SqliteError) (pinned : ReadStoreState) (call : Call) (db after : Db)
    (outcome : Outcome CaptureResult)
    → IsCovered db
    → IsNumbered db
    → IsCanonicalId (new_item call db).id
    → capture_inner fault pinned call db ≡ (after, outcome)
    → IsNumbered after
capture_inner-IsNumbered fault pinned call db after (err stop) c n canonical h =
    subst IsNumbered (sym (capture_inner_err_unchanged fault pinned call db after stop h)) n
capture_inner-IsNumbered fault pinned call db after (ok result) c n canonical h =
    let (_, (next, to, answers)) = capture_inner-ok fault pinned call db after result c h in
    subst IsNumbered (sym to) (by_answer next answers)
  where
    by_answer : (next : Option Db) → Answers call db result next → IsNumbered (left db next)
    by_answer next (inl (_, same)) = subst (λ x. IsNumbered (left db x)) (sym same) n
    by_answer next (inr (_, positive, below, wrote)) =
        let (_, to, _, _) = wrote in
        subst (λ x. IsNumbered (left db x)) (sym to)
          (with_capture-IsNumbered call db canonical positive below n)
