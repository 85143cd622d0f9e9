-- ===== src/Application/Listing/Pages.antt =====
-- Following the offsets of the pages of an item list yields the whole list, once and in order.
use bif.Base.{
  ℕ, zero, suc, ◌+◌, ◌-◌, ◌<◌, ◌≤◌, ◌≡◌, subst, refl, sym, ap, ◌∙◌, List, [], ◌∷◌, ◌++◌, Option,
  none, some, length, arith, ltb, if◌then◌else◌, Bool-cases, inl, inr,
}
use mathlib.Core.Option
use bif.Domain.Item.{Item}
use bif.Application.Listing.{
  Ordering, cmp_items, insert, sort_by, ItemListOrdering, skip, take, item_page, order_items,
}

-- a client that asks for page after page, on fuel
unfoldable pub walk : ℕ → List Item → ItemListOrdering → ℕ → ℕ → Option (List Item)
walk zero selected ordering limit offset = none
walk (suc fuel) selected ordering limit offset =
    let page = item_page selected ordering (record { limit = limit; offset = offset }) in
    elim page.next_offset [
      | none ↦ some page.items
      | some o ↦ Option.map (λ rest. page.items ++ rest) (walk fuel selected ordering limit o)
    ]

take-take : (n : ℕ) (xs : List Item) → take n (take (suc n) xs) ≡ take n xs
take-take zero xs = refl
take-take (suc n) [] = refl
take-take (suc n) (x ∷ xs) = ap (λ t. x ∷ t) (take-take n xs)

take_all : (n : ℕ) (xs : List Item) → length xs ≤ n → take n xs ≡ xs
take_all zero [] h = refl
take_all zero (x ∷ xs) h = absurd (omega arith)
take_all (suc n) [] h = refl
take_all (suc n) (x ∷ xs) h = ap (λ t. x ∷ t) (take_all n xs (omega arith))

take-skip : (n : ℕ) (xs : List Item) → take n xs ++ skip n xs ≡ xs
take-skip zero xs = refl
take-skip (suc n) [] = refl
take-skip (suc n) (x ∷ xs) = ap (λ t. x ∷ t) (take-skip n xs)

skip_nil : (n : ℕ) → skip {A = Item} n [] ≡ []
skip_nil zero = refl
skip_nil (suc n) = refl

skip-skip : (m n k : ℕ) (xs : List Item) → k ≡ m + n → skip k xs ≡ skip n (skip m xs)
skip-skip zero n k xs e = ap (λ j. skip j xs) (omega arith)
skip-skip (suc m) n k [] e = skip_nil k ∙ sym (skip_nil n)
skip-skip (suc m) n zero (x ∷ xs) e = absurd (omega arith)
skip-skip (suc m) n (suc k) (x ∷ xs) e = skip-skip m n k xs (omega arith)

length-skip : (n : ℕ) (xs : List Item) → length (skip n xs) ≡ length xs - n
length-skip zero xs = omega arith
length-skip (suc n) [] = omega arith
length-skip (suc n) (x ∷ xs) = length-skip n xs ∙ omega arith

-- one item more than a page tells whether there is a next page
length-take_more : (n : ℕ) (xs : List Item) → ltb n (length (take (suc n) xs)) ≡ ltb n (length xs)
length-take_more zero [] = refl
length-take_more zero (x ∷ xs) = ground arith
length-take_more (suc n) [] = refl
length-take_more (suc n) (x ∷ xs) = ground (arith, length-take_more n xs)

-- a page that is full and followed, or the last one
page_read :
    (selected : List Item) (ordering : ItemListOrdering) (limit offset : ℕ)
    → let rest = skip offset (order_items selected ordering) in
      item_page selected ordering (record { limit = limit; offset = offset }) ≡ record {
        items = take limit rest;
        next_offset = if ltb limit (length rest) then some (offset + limit) else none;
      }
unfolding item_page
page_read selected ordering limit offset =
    let rest = skip offset (order_items selected ordering) in
    let one : limit + 1 ≡ suc limit = omega arith in
    let items = ap (λ n. take limit (take n rest)) one ∙ take-take limit rest in
    let more = ap (λ n. ltb limit (length (take n rest))) one ∙ length-take_more limit rest in
    λ i. record { items = items i; next_offset = if more i then some (offset + limit) else none }

walk-skip :
    (fuel : ℕ) (selected : List Item) (ordering : ItemListOrdering) (limit offset : ℕ)
    → 0 < limit
    → length (skip offset (order_items selected ordering)) < fuel
    → walk fuel selected ordering limit offset ≡ some (skip offset (order_items selected ordering))
unfolding walk
walk-skip zero selected ordering limit offset h k = absurd (omega arith)
walk-skip (suc fuel) selected ordering limit offset h k =
    let sorted = order_items selected ordering in
    let rest = skip offset sorted in
    let read = page_read selected ordering limit offset in
    elim (Bool-cases (ltb limit (length rest))) [
      | inr last ↦ let all = take_all limit rest (ground arith) in ground arith
      | inl more ↦
          let next = skip-skip offset limit (offset + limit) sorted refl in
          let shorter = length-skip limit rest in
          let later =
            walk-skip fuel selected ordering limit (offset + limit) h
              (subst (λ (t : List Item). length t < fuel) (sym next) (ground arith)) in
          let whole = take-skip limit rest in ground arith
    ]

length-insert :
    (compare : Item → Item → Ordering) (x : Item) (xs : List Item)
    → length (insert compare x xs) ≡ suc (length xs)
length-insert compare x [] = refl
length-insert compare x (y ∷ ys) = ground (arith, length-insert compare x ys)

pub length-sort_by :
    (compare : Item → Item → Ordering) (xs : List Item) → length (sort_by compare xs) ≡ length xs
length-sort_by compare [] = refl
length-sort_by compare (x ∷ xs) =
    length-insert compare x (sort_by compare xs) ∙ ap suc (length-sort_by compare xs)

-- A client that starts at offset 0 and asks for page after page at the offset that the last one gave
-- reads the ordered list, each item once and in order, and comes to a page without a next one. There
-- are at most one more pages than items, whatever the page size above 0.
pub walk_complete :
    (selected : List Item) (ordering : ItemListOrdering) (limit : ℕ)
    → 0 < limit
    → walk (suc (length selected)) selected ordering limit 0 ≡ some (order_items selected ordering)
unfolding order_items
walk_complete selected ordering limit h =
    let size = length-sort_by (cmp_items ordering) selected in
    walk-skip (suc (length selected)) selected ordering limit 0 h (omega arith)
