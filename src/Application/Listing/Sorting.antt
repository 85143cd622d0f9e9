-- ===== src/Application/Listing/Sorting.antt =====
-- The result of `order_items` is a sorted arrangement, and the same for every arrangement of its input.
use bif.Base.{◌≡◌, ◌≢◌, refl, sym, ◌∙◌, List, [], ◌∷◌, arith}
use mathlib.Core.List.{Memᴰ, Permᴰ}
use mathlib.Core.List.Permᴰ as Permuted
use mathlib.Core.Path.{ap₂}
use bif.Domain.Item.{Item}
use bif.Application.Listing.{
  Ordering, less, equal, greater, ItemListOrdering, cmp_items, insert, sort_by, order_items,
}
use bif.Application.Listing.Order.{IsOrder, cmp_items-IsOrder, cmp_items-equal}

Memᴰ-Permᴰ : {a : Item} {xs ys : List Item} → Permᴰ xs ys → Memᴰ a ys → Memᴰ a xs
Memᴰ-Permᴰ Permᴰ.nil m = m
Memᴰ-Permᴰ (Permᴰ.cons e p) (Memᴰ.head h) = Memᴰ.head (h ∙ sym e)
Memᴰ-Permᴰ (Permᴰ.cons e p) (Memᴰ.tail m) = Memᴰ.tail (Memᴰ-Permᴰ p m)
Memᴰ-Permᴰ (Permᴰ.swap e d) (Memᴰ.head h) = Memᴰ.tail (Memᴰ.head (h ∙ sym d))
Memᴰ-Permᴰ (Permᴰ.swap e d) (Memᴰ.tail (Memᴰ.head h)) = Memᴰ.head (h ∙ sym e)
Memᴰ-Permᴰ (Permᴰ.swap e d) (Memᴰ.tail (Memᴰ.tail m)) = Memᴰ.tail (Memᴰ.tail m)
Memᴰ-Permᴰ (Permᴰ.trans p q) m = Memᴰ-Permᴰ p (Memᴰ-Permᴰ q m)

module _ (c : Item → Item → Ordering) where
  -- no element comes after the next one
  abbrev pub Sorted : List Item → Type 0
  Sorted [] = Unit
  Sorted (x ∷ []) = Unit
  Sorted (x ∷ y ∷ ys) = (c x y ≢ greater) × Sorted (y ∷ ys)

  insert-Permᴰ : (x : Item) (xs : List Item) → Permᴰ (x ∷ xs) (insert c x xs)
  insert-Permᴰ x [] = Permuted.refl (x ∷ [])
  insert-Permᴰ x (y ∷ ys) = by_order (insert-Permᴰ x ys) (c x y) refl
    where
      by_order :
          Permᴰ (x ∷ ys) (insert c x ys)
          → (o : Ordering) → c x y ≡ o
          → Permᴰ (x ∷ y ∷ ys) (insert c x (y ∷ ys))
      by_order later less e = rw (e, insert) (Permuted.refl (x ∷ y ∷ ys))
      by_order later equal e = rw (e, insert) (Permuted.refl (x ∷ y ∷ ys))
      by_order later greater e =
          rw (e, insert) (Permᴰ.trans (Permᴰ.swap refl refl) (Permᴰ.cons refl later))

  sort_by-Permᴰ : (xs : List Item) → Permᴰ xs (sort_by c xs)
  sort_by-Permᴰ [] = Permᴰ.nil
  sort_by-Permᴰ (x ∷ xs) =
      Permᴰ.trans (Permᴰ.cons refl (sort_by-Permᴰ xs)) (insert-Permᴰ x (sort_by c xs))

  insert-Sorted : IsOrder c → (x : Item) (xs : List Item) → Sorted xs → Sorted (insert c x xs)
  insert-Sorted o x [] s = tt
  insert-Sorted o x (y ∷ []) s = ground (arith, o.reversed x y)
  insert-Sorted o x (y ∷ z ∷ zs) s = ground (arith, o.reversed x y, insert-Sorted o x (z ∷ zs) s.1)

  insert-swap :
      IsOrder c
      → (x y : Item) (zs : List Item) → (c x y ≡ equal → x ≡ y)
      → insert c x (insert c y zs) ≡ insert c y (insert c x zs)
  insert-swap o x y [] same = ground (arith, o.reversed x y)
  insert-swap o x y (z ∷ zs) same = ground (
    arith,
    insert-swap o x y zs same,
    o.reversed x y,
    o.reversed x z,
    o.reversed y z,
    o.transitive x z y,
    o.transitive y z x,
    o.alike x z y,
    o.alike y z x,
  )

  sort_by-Sorted : IsOrder c → (xs : List Item) → Sorted (sort_by c xs)
  sort_by-Sorted o [] = tt
  sort_by-Sorted o (x ∷ xs) = insert-Sorted o x (sort_by c xs) (sort_by-Sorted o xs)

  sort_by-same :
      IsOrder c
      → (xs ys : List Item) → ((x y : Item) → Memᴰ x xs → Memᴰ y xs → c x y ≡ equal → x ≡ y)
      → Permᴰ xs ys
      → sort_by c xs ≡ sort_by c ys
  sort_by-same o _ _ same Permᴰ.nil = refl
  sort_by-same o _ _ same (Permᴰ.cons {a = a} {b = b} {l₁ = l₁} {l₂ = l₂} e p) =
      ap₂ (insert c) e (sort_by-same o l₁ l₂ (λ x y m n. same x y (Memᴰ.tail m) (Memᴰ.tail n)) p)
  sort_by-same o _ _ same (Permᴰ.swap {a = a} {b = b} {a' = a'} {b' = b'} {l = l} e d) =
      insert-swap o a b (sort_by c l) (same a b (Memᴰ.head refl) (Memᴰ.tail (Memᴰ.head refl)))
      ∙ ap₂ (λ x y. insert c x (insert c y (sort_by c l))) d e
  sort_by-same o _ _ same (Permᴰ.trans {l₁ = l₁} {l₂ = l₂} {l₃ = l₃} p q) =
      sort_by-same o l₁ l₂ same p
      ∙ sort_by-same o l₂ l₃ (λ x y m n. same x y (Memᴰ-Permᴰ p m) (Memᴰ-Permᴰ p n)) q

-- the identity tells the items of a list apart
abbrev pub Identified : List Item → Type 0
Identified items = (x y : Item) → Memᴰ x items → Memᴰ y items → x.id ≡ y.id → x ≡ y

-- The items of a list are put in order: the result has the same items, none comes after the next
-- one, and it is the result for every other arrangement of the items, if their identities tell them
-- apart: the order in which the store returns the rows does not show.
pub order_items-Sorted :
    (items : List Item) (ordering : ItemListOrdering)
    → Identified items
    → Permᴰ items (order_items items ordering)
      × Sorted (cmp_items ordering) (order_items items ordering)
      × ((other : List Item)
          → Permᴰ items other
          → order_items other ordering ≡ order_items items ordering)
unfolding order_items
order_items-Sorted items ordering apart =
    let o = cmp_items-IsOrder ordering in
    let c = cmp_items ordering in
    (
      sort_by-Permᴰ c items,
      sort_by-Sorted c o items,
      λ other p. sym (
          sort_by-same c o items other (λ x y m n e. apart x y m n (cmp_items-equal ordering x y e))
            p),
    )
