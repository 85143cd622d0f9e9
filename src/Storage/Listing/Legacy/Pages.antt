-- ===== src/Storage/Listing/Legacy/Pages.antt =====
-- A page that is cut in SQL is the page that is cut from the ordered list.
use bif.Base.{
  ℕ, zero, suc, ◌+◌, ◌≤◌, ◌≡◌, refl, sym, ap, ◌∙◌, subst, Bool, false, true, List, [], ◌∷◌, Option,
  none, ok, arith, length, ltb, if◌then◌else◌, Bool-cases, inl, inr, list_eq, nat_eq,
}
use mathlib.Core.List.{Memᴰ}
use mathlib.Core.List.Permᴰ as Permuted
use bif.Domain.Identifier.{RequesterId, upper}
use bif.Domain.Identifier.Canonical.{IsCanonical}
use bif.Domain.Item.{Item}
use bif.Domain.View.{NamedView}
use bif.Application.Listing.{
  Ordering, less, equal, greater, insert, sort_by, ItemListFilters, ItemListOrdering, Pagination,
  cmp_items, order_items, skip, take, item_page,
}
use bif.Application.Listing.Pages.{length-sort_by}
use bif.Application.Listing.Sorting.{Identified, order_items-Sorted}
use bif.Application.ReadSemantics.{sort_spec, new_filters}
use bif.Storage.Codec.{SqliteError}
use bif.Storage.Codec.RoundTrip.{IsStorable, decode_item-item_row}
use bif.Storage.Db.{Db, ItemEntry}
use bif.Storage.Mutate.Stored.{IsStored}
use bif.Storage.Journal.{max_i64}
use bif.Storage.Listing.Queries.Members.{IsFilter, member}
use bif.Storage.Listing.Selected.{keep, chosen, Holds, Holds-Permᴰ, chosen-Holds, IsArrangement}
use bif.Storage.Listing.Legacy.{
  compare_rows, legacy_item, legacy_items, legacy_rows, legacy_page, criteria_request,
}
use bif.Storage.Listing.Legacy.Rows.{item_entry, compare_rows-cmp_items}

abbrev Held : Db → ItemEntry → Item → Type 0
Held db e item = (e ≡ item_entry item) × IsStored db item × IsStorable item

-- two rows compare as what they hold
compare-Held :
    (db : Db) (ordering : ItemListOrdering) (e f : ItemEntry) (x y : Item)
    → Held db e x
    → Held db f y
    → compare_rows (sort_spec ordering) e f ≡ cmp_items ordering x y
compare-Held db ordering e f x y h k =
    ap (λ r. compare_rows (sort_spec ordering) r f) h.0
    ∙ ap (compare_rows (sort_spec ordering) (item_entry x)) k.0
    ∙ compare_rows-cmp_items ordering x y h.2 k.2

insert_step :
    (db : Db) (ordering : ItemListOrdering) (e f : ItemEntry) (x y : Item) (es : List ItemEntry)
    (ys : List Item)
    → Held db e x
    → Held db f y × Holds db es ys
    → Holds db (insert (compare_rows (sort_spec ordering)) e es) (insert (cmp_items ordering) x ys)
    → (o : Ordering) → cmp_items ordering x y ≡ o
    → Holds db
        (insert (compare_rows (sort_spec ordering)) e (f ∷ es))
        (insert (cmp_items ordering) x (y ∷ ys))
insert_step db ordering e f x y es ys h (j, k) further less c =
    rw (compare-Held db ordering e f x y h j ∙ c, insert) (rw (c, insert) (h, (j, k)))
insert_step db ordering e f x y es ys h (j, k) further equal c =
    rw (compare-Held db ordering e f x y h j ∙ c, insert) (rw (c, insert) (h, (j, k)))
insert_step db ordering e f x y es ys h (j, k) further greater c =
    rw (compare-Held db ordering e f x y h j ∙ c, insert) (rw (c, insert) (j, further))

insert-Holds :
    (db : Db) (ordering : ItemListOrdering) (e : ItemEntry) (x : Item) (es : List ItemEntry)
    (xs : List Item)
    → Held db e x
    → Holds db es xs
    → Holds db (insert (compare_rows (sort_spec ordering)) e es) (insert (cmp_items ordering) x xs)
insert-Holds db ordering e x [] [] h k = (h, tt)
insert-Holds db ordering e x (f ∷ es) (y ∷ ys) h (j, k) =
    insert_step db ordering e f x y es ys h (j, k) (insert-Holds db ordering e x es ys h k)
      (cmp_items ordering x y) refl
insert-Holds db ordering e x [] (y ∷ ys) h k = elim k [ ]
insert-Holds db ordering e x (f ∷ es) [] h k = elim k [ ]

sort_by-Holds :
    (db : Db) (ordering : ItemListOrdering) (es : List ItemEntry) (xs : List Item)
    → Holds db es xs
    → Holds db (sort_by (compare_rows (sort_spec ordering)) es) (sort_by (cmp_items ordering) xs)
sort_by-Holds db ordering [] [] h = tt
sort_by-Holds db ordering (e ∷ es) (x ∷ xs) (h, k) =
    insert-Holds db ordering e x (sort_by (compare_rows (sort_spec ordering)) es)
      (sort_by (cmp_items ordering) xs) h (sort_by-Holds db ordering es xs k)
sort_by-Holds db ordering [] (x ∷ xs) h = elim h [ ]
sort_by-Holds db ordering (e ∷ es) [] h = elim h [ ]

skip-Holds :
    (db : Db) (n : ℕ) (es : List ItemEntry) (xs : List Item)
    → Holds db es xs
    → Holds db (skip n es) (skip n xs)
skip-Holds db zero es xs h = h
skip-Holds db (suc n) [] [] h = tt
skip-Holds db (suc n) (e ∷ es) (x ∷ xs) h = skip-Holds db n es xs h.1
skip-Holds db (suc n) [] (x ∷ xs) h = elim h [ ]
skip-Holds db (suc n) (e ∷ es) [] h = elim h [ ]

take-Holds :
    (db : Db) (n : ℕ) (es : List ItemEntry) (xs : List Item)
    → Holds db es xs
    → Holds db (take n es) (take n xs)
take-Holds db zero es xs h = tt
take-Holds db (suc n) [] [] h = tt
take-Holds db (suc n) (e ∷ es) (x ∷ xs) h = (h.0, take-Holds db n es xs h.1)
take-Holds db (suc n) [] (x ∷ xs) h = elim h [ ]
take-Holds db (suc n) (e ∷ es) [] h = elim h [ ]

length-Holds :
    (db : Db) (es : List ItemEntry) (xs : List Item) → Holds db es xs → length es ≡ length xs
length-Holds db [] [] h = refl
length-Holds db (e ∷ es) (x ∷ xs) h = ap suc (length-Holds db es xs h.1)
length-Holds db [] (x ∷ xs) h = elim h [ ]
length-Holds db (e ∷ es) [] h = elim h [ ]

legacy_item-Held : (db : Db) (e : ItemEntry) (x : Item) → Held db e x → legacy_item db e ≡ ok x
unfolding legacy_item
legacy_item-Held db e x (row, stored, storable) =
    ap (legacy_item db) row
    ∙ ground (arith, stored.provenance, stored.criteria, decode_item-item_row x storable)

legacy_items-Holds :
    (db : Db) (es : List ItemEntry) (xs : List Item) → Holds db es xs → legacy_items db es ≡ ok xs
unfolding legacy_items
legacy_items-Holds db [] [] h = refl
legacy_items-Holds db (e ∷ es) (x ∷ xs) (h, k) =
    ground (arith, legacy_item-Held db e x h, legacy_items-Holds db es xs k)
legacy_items-Holds db [] (x ∷ xs) h = elim h [ ]
legacy_items-Holds db (e ∷ es) [] h = elim h [ ]

keep_one :
    (b : Bool) (x y : Item) (kept ys : List Item)
    → Memᴰ x (if b then y ∷ kept else kept)
    → (Memᴰ x kept → Memᴰ x ys)
    → Memᴰ x (y ∷ ys)
keep_one true x y kept ys (Memᴰ.head h) rest = Memᴰ.head h
keep_one true x y kept ys (Memᴰ.tail m) rest = Memᴰ.tail (rest m)
keep_one false x y kept ys m rest = Memᴰ.tail (rest m)

Memᴰ-keep : (p : Item → Bool) (x : Item) (xs : List Item) → Memᴰ x (keep p xs) → Memᴰ x xs
Memᴰ-keep p x [] m = m
Memᴰ-keep p x (y ∷ ys) m = keep_one (p y) x y (keep p ys) ys m (Memᴰ-keep p x ys)

Identified-keep :
    (p : Item → Bool) (items : List Item) → Identified items → Identified (keep p items)
Identified-keep p items h x y m n = h x y (Memᴰ-keep p x items m) (Memᴰ-keep p y items n)

length-keep : (p : Item → Bool) (xs : List Item) → length (keep p xs) ≤ length xs
length-keep p [] = omega arith
length-keep p (x ∷ xs) = ground (arith, length-keep p xs)

skip_all : (n : ℕ) (xs : List Item) → length xs ≤ n → skip n xs ≡ []
skip_all zero [] h = refl
skip_all zero (x ∷ xs) h = absurd (omega arith)
skip_all (suc n) [] h = refl
skip_all (suc n) (x ∷ xs) h = skip_all n xs (omega arith)

take_nil : (n : ℕ) → take {A = Item} n [] ≡ []
take_nil zero = refl
take_nil (suc n) = refl

-- a page far behind the list is empty
item_page_behind :
    (items : List Item) (ordering : ItemListOrdering) (p : Pagination)
    → length items ≤ p.offset
    → item_page items ordering p ≡ record { items = []; next_offset = none }
unfolding item_page order_items
item_page_behind items ordering p h =
    let rest : skip p.offset (order_items items ordering) ≡ [] =
      skip_all p.offset (order_items items ordering)
        (omega (arith, length-sort_by (cmp_items ordering) items)) in
    ground (arith, rest, take_nil p.limit, take_nil (p.limit + 1))

abbrev pub quiet : {S : Type 0} → S → Option SqliteError
quiet s = none

abbrev pub members : NamedView → RequesterId → ItemListFilters → List Item → List Item
members view r filters items = keep (member (new_filters view r filters)) items

-- the rows of a page hold what the list of the members, in order, has at its place
legacy_rows-Holds :
    (scan : List ItemEntry → List ItemEntry) (view : NamedView) (r : RequesterId)
    (filters : ItemListFilters) (ordering : ItemListOrdering) (p : Pagination) (db : Db)
    (items : List Item)
    → IsArrangement scan
    → IsCanonical upper r.as_str
    → IsFilter filters
    → Holds db db.items items
    → Identified items
    → Holds db
        (legacy_rows scan view r filters ordering p db)
        (take (p.limit + 1) (skip p.offset (order_items (members view r filters items) ordering)))
unfolding legacy_rows order_items
legacy_rows-Holds scan view r filters ordering p db items arranges c f h apart =
    let selected = members view r filters items in
    let held = chosen-Holds view r filters db db.items items c f h in
    let (listed, read, arranged) =
      Holds-Permᴰ db (scan (chosen view r filters db)) _ selected (arranges _) held in
    let own = Identified-keep (member (new_filters view r filters)) items apart in
    let same = (order_items-Sorted selected ordering own).2 listed (Permuted.symm arranged) in
    take-Holds db (p.limit + 1) _ _ (
      skip-Holds db p.offset _ _ (
        subst
          (Holds db (sort_by (compare_rows (sort_spec ordering)) (scan (chosen view r filters db))))
          same (sort_by-Holds db ordering (scan (chosen view r filters db)) listed read)))

criteria_request-quiet : (rows : List ItemEntry) → criteria_request quiet rows ≡ ok tt
criteria_request-quiet [] = refl
criteria_request-quiet (row ∷ rows) = refl

pub legacy_page-item_page :
    (scan : List ItemEntry → List ItemEntry) (view : NamedView) (r : RequesterId)
    (filters : ItemListFilters) (ordering : ItemListOrdering) (p : Pagination) (db : Db)
    (items : List Item)
    → IsArrangement scan
    → IsCanonical upper r.as_str
    → IsFilter filters
    → Holds db db.items items
    → Identified items
    → length items ≤ max_i64
    → legacy_page quiet scan view r filters ordering p db
      ≡ ok (item_page (members view r filters items) ordering p)
unfolding legacy_page item_page
legacy_page-item_page scan view r filters ordering p db items arranges c f h apart few =
    let selected = members view r filters items in
    let small = length-keep (member (new_filters view r filters)) items in
    elim (Bool-cases (ltb max_i64 p.offset)) [
      | inl far ↦
          let empty = item_page_behind selected ordering p (ground arith) in
          rw far (ap ok (sym empty))
      | inr near ↦
          let held =
            legacy_rows-Holds scan view r filters ordering p db items arranges c f h apart in
          let count = length-Holds db _ _ held in
          let read = legacy_items-Holds db _ _ (take-Holds db p.limit _ _ held) in
          let asked =
            criteria_request-quiet (take p.limit (legacy_rows scan view r filters ordering p db)) in
          rw (near, asked, read, count) refl
    ]
