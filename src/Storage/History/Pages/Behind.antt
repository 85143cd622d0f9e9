-- ===== src/Storage/History/Pages/Behind.antt =====
-- What stands behind a boundary in the rows of a history, and in its events.
use bif.Base.{
  subst, ℕ, zero, suc, ◌≤◌, ◌≡◌, refl, sym, ap, ◌∙◌, Bool, true, false, ◌&&◌, ◌||◌, List, [], ◌∷◌,
  Option, none, some, Result, ok, ok_or, if◌then◌else◌, ◌==◌, list_eq, nat_eq, ltb, All, arith,
  Bool-cases, inl, inr, >>=-eq-ok,
}
use bif.Base.Int.{ℤ, pos, negsuc, try_u64}
use bif.Domain.Item.{new_revision}
use bif.Application.ReadSemantics.{is_greater}
use bif.Application.History.{ItemHistoryEvent, HistoryReadKey}
use bif.Storage.Codec.{SqliteError}
use bif.Storage.Db.{EventEntry, select}
use bif.Storage.Journal.{max_i64}
use bif.Storage.Listing.{cmp_int}
use bif.Storage.History.{
  HistoryError, HistoryRow, history_row, history_event, parse_revision, parse_history_event_type,
  parse_history_value, parse_actor_kind, parse_execution, parse_schema_version,
}
use bif.Storage.History.Queries.{Statement, cmp_rows, insert_row, order_rows, boundary, collect}

-- no request is refused
abbrev pub no_fault : Statement → Option SqliteError
no_fault s = none

-- the key of an event comes after another in the order of the history
abbrev pub is_later : ItemHistoryEvent → HistoryReadKey → Bool
is_later e k =
    ltb k.item_revision e.item_revision
    || (e.item_revision == k.item_revision && ltb k.event_index e.event_index)

-- the events behind an exclusive boundary
abbrev pub behind : Option HistoryReadKey → List ItemHistoryEvent → List ItemHistoryEvent
behind none events = events
behind (some k) [] = []
behind (some k) (e ∷ events) =
    if is_later e k then e ∷ behind (some k) events else behind (some k) events

abbrev pub take : ℕ → List ItemHistoryEvent → List ItemHistoryEvent
take zero events = []
take (suc n) [] = []
take (suc n) (e ∷ events) = e ∷ take n events

-- the numbers of a row are what an INTEGER column holds
abbrev pub IsInteger : EventEntry → Type 0
IsInteger e =
    (is_greater (cmp_int e.item_revision (pos max_i64)) ≡ false) × (e.event_index ≤ max_i64)

-- a boundary holds of all that comes after what it holds of
boundary-monotone :
    (k : Option HistoryReadKey) (x y : EventEntry)
    → boundary k x ≡ true
    → is_greater (cmp_rows x y) ≡ false
    → boundary k y ≡ true
unfolding boundary
boundary-monotone none x y h g = refl
boundary-monotone (some k) x y h g = by_sign x.item_revision y.item_revision refl refl
  where
    by_sign : (a b : ℤ) → x.item_revision ≡ a → y.item_revision ≡ b → boundary (some k) y ≡ true
    by_sign (pos m) (pos n) e f = ground arith
    by_sign (pos m) (negsuc n) e f = ground arith
    by_sign (negsuc m) (pos n) e f = ground arith
    by_sign (negsuc m) (negsuc n) e f = ground arith

select-insert_row :
    (k : Option HistoryReadKey) (x : EventEntry) (xs : List EventEntry)
    → select (boundary k) (insert_row x xs)
      ≡ (if boundary k x then insert_row x (select (boundary k) xs) else select (boundary k) xs)
unfolding select insert_row
select-insert_row k x [] = ground arith
select-insert_row k x (y ∷ ys) = ground (arith, select-insert_row k x ys, boundary-monotone k x y)

-- ordering what the boundary leaves is the same as bounding what is ordered
pub select-order_rows :
    (p : EventEntry → Bool) (k : Option HistoryReadKey) (xs : List EventEntry)
    → order_rows (select (λ e. p e && boundary k e) xs)
      ≡ select (boundary k) (order_rows (select p xs))
unfolding select order_rows
select-order_rows p k [] = refl
select-order_rows p k (x ∷ xs) =
    ground (arith, select-order_rows p k xs, select-insert_row k x (order_rows (select p xs)))

parse_revision-ok : (z : ℤ) (n : ℕ) → parse_revision z ≡ ok n → z ≡ pos n
unfolding new_revision
parse_revision-ok (pos m) n h = ground arith
parse_revision-ok (negsuc m) n h = ground arith

pub ok-injective : {A E : Type 0} {a b : A} → ◌≡◌ {A = Result A E} (ok a) (ok b) → a ≡ b
ok-injective h = cc

try_u64-ok : (e : HistoryError) (z : ℤ) (n : ℕ) → ok_or e (try_u64 z) ≡ ok n → z ≡ pos n
try_u64-ok e (pos m) n h = ground arith
try_u64-ok e (negsuc m) n h = ground arith

history_event-key :
    (row : HistoryRow) (event : ItemHistoryEvent)
    → history_event row ≡ ok event
    → (row.item_revision ≡ pos event.item_revision) × (row.event_index ≡ pos event.event_index)
unfolding history_event
history_event-key row event h =
    let (revision, parsed, rest) = >>=-eq-ok (parse_revision row.item_revision) _ h in
    let (index, read, rest) = >>=-eq-ok (ok_or _ (try_u64 row.event_index)) _ rest in
    let (type, _, rest) = >>=-eq-ok (parse_history_event_type row.event_type) _ rest in
    let (before, _, rest) = >>=-eq-ok (parse_history_value type _ row.before_value) _ rest in
    let (after, _, rest) = >>=-eq-ok (parse_history_value type _ row.after_value) _ rest in
    let (kind, _, rest) = >>=-eq-ok (parse_actor_kind row.actor_kind) _ rest in
    let (execution, _, rest) = >>=-eq-ok (parse_execution row) _ rest in
    let (version, _, rest) = >>=-eq-ok (parse_schema_version row.event_schema_version) _ rest in
    let at = parse_revision-ok row.item_revision revision parsed in
    let place = try_u64-ok _ row.event_index index read in
    let same = ok-injective rest in
    (
      at ∙ ap (λ (e : ItemHistoryEvent). pos e.item_revision) same,
      place ∙ ap (λ (e : ItemHistoryEvent). pos e.event_index) same,
    )

-- a row and the event that it holds stand on the same side of a boundary
boundary-is_later :
    (k : HistoryReadKey) (row : EventEntry) (event : ItemHistoryEvent)
    → IsInteger row
    → history_event (history_row row) ≡ ok event
    → boundary (some k) row ≡ is_later event k
unfolding boundary history_row
boundary-is_later k row event i h =
    let (revision, index) = history_event-key (history_row row) event h in ground arith

-- rows that can be decoded
pub collect-cons :
    (i : ℕ) (row : EventEntry) (rows : List EventEntry) (events : List ItemHistoryEvent)
    → collect no_fault i (row ∷ rows) ≡ ok events
    → (event : ItemHistoryEvent) × (rest : List ItemHistoryEvent) × (history_event (history_row row)
        ≡ ok event)
      × (collect no_fault (suc i) rows ≡ ok rest)
      × (events ≡ event ∷ rest)
unfolding collect
collect-cons i row rows events h =
    let (event, decoded, more) = >>=-eq-ok (history_event (history_row row)) _ h in
    let (rest, later, same) = >>=-eq-ok (collect no_fault (suc i) rows) _ more in
    (event, rest, decoded, later, sym (ok-injective same))

pub collect-shift :
    (i j : ℕ) (rows : List EventEntry) (events : List ItemHistoryEvent)
    → collect no_fault i rows ≡ ok events
    → collect no_fault j rows ≡ ok events
unfolding collect
collect-shift i j [] events h = h
collect-shift i j (row ∷ rows) events h =
    let (event, rest, decoded, later, same) = collect-cons i row rows events h in
    let tail = collect-shift (suc i) (suc j) rows rest later in
    subst (λ es. collect no_fault j (row ∷ rows) ≡ ok es) (sym same) (rw (decoded, tail) refl)

-- the events of rows behind a boundary
collect-select :
    (k : HistoryReadKey) (i j : ℕ) (rows : List EventEntry) (events : List ItemHistoryEvent)
    → All IsInteger rows
    → collect no_fault i rows ≡ ok events
    → collect no_fault j (select (boundary (some k)) rows) ≡ ok (behind (some k) events)
unfolding collect select
collect-select k i j [] events a h = rw (sym (ok-injective h)) refl
collect-select k i j (row ∷ rows) events a h =
    let (event, rest, decoded, later, same) = collect-cons i row rows events h in
    let side = boundary-is_later k row event a.0 decoded in
    elim (Bool-cases (is_later event k)) [
      | inl after ↦
          rw (same, side, after, decoded, collect-select k (suc i) (suc j) rows rest a.1 later) refl
      | inr before ↦ rw (same, side, before, collect-select k (suc i) j rows rest a.1 later) refl
    ]

select_all : (rows : List EventEntry) → select (boundary none) rows ≡ rows
unfolding select boundary
select_all [] = refl
select_all (row ∷ rows) = ap (λ rs. row ∷ rs) (select_all rows)

pub collect-boundary :
    (k : Option HistoryReadKey) (rows : List EventEntry) (events : List ItemHistoryEvent)
    → All IsInteger rows
    → collect no_fault 0 rows ≡ ok events
    → collect no_fault 0 (select (boundary k) rows) ≡ ok (behind k events)
collect-boundary none rows events a h = rw (select_all rows) h
collect-boundary (some k) rows events a h = collect-select k 0 0 rows events a h
