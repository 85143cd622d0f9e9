-- ===== src/Application/Listing/Order.antt =====
-- The orders of item lists are total orders: of texts, of identities and of items.
use bif.Base.{ℕ, ◌≡◌, refl, sym, ap, ◌∙◌, [], ◌∷◌, arith}
use bif.Base.Text.{Text}
use bif.Domain.Item.{Item, ItemId}
use bif.Application.Listing.{
  Ordering, less, equal, then_with, reverse, cmp, cmp_text, cmp_id, ItemListOrdering, newest_first,
  next, priority_rank, cmp_items,
}

-- a comparison by which equal elements compare alike
pub record IsOrder {A : Type 0} (c : A → A → Ordering) : Type 0 where
  pub reversed : (x y : A) → c y x ≡ reverse (c x y)
  pub alike : (x y z : A) → c x y ≡ equal → c x z ≡ c y z
  pub transitive : (x y z : A) → c x y ≡ less → c y z ≡ less → c x z ≡ less

cmp-IsOrder : IsOrder cmp
cmp-IsOrder = record {
  reversed = λ x y. ground arith;
  alike = λ x y z h. ground arith;
  transitive = λ x y z h k. ground arith;
}

cmp-equal : (m n : ℕ) → cmp m n ≡ equal → m ≡ n
cmp-equal m n h = ground arith

module _ {A : Type 0} where
  by : {B : Type 0} {c : A → A → Ordering} (f : B → A) → IsOrder c → IsOrder (λ x y. c (f x) (f y))
  by f o = record {
    reversed = λ x y. o.reversed (f x) (f y);
    alike = λ x y z h. o.alike (f x) (f y) (f z) h;
    transitive = λ x y z h k. o.transitive (f x) (f y) (f z) h k;
  }

  -- descending
  flipped : {c : A → A → Ordering} → IsOrder c → IsOrder (λ x y. c y x)
  flipped {c} o = record {
    reversed = λ x y. o.reversed y x;
    alike = λ x y z h.
        let a = o.alike x y z (o.reversed y x ∙ ap reverse h) in
        o.reversed x z ∙ ap reverse a ∙ sym (o.reversed y z);
    transitive = λ x y z h k. o.transitive z y x k h;
  }

  -- one comparison, then another
  lexicographic :
      {c d : A → A → Ordering} → IsOrder c → IsOrder d → IsOrder (λ x y. then_with (c x y) (d x y))
  lexicographic {c} {d} o q = record {
    reversed = λ x y. ground (arith, o.reversed x y, q.reversed x y);
    alike = λ x y z h. ground (arith, o.alike x y z, q.alike x y z);
    transitive = λ x y z h k. ground (
      arith,
      o.transitive x y z,
      q.transitive x y z,
      o.alike x y z,
      o.alike y z x,
      o.reversed x y,
      o.reversed x z,
    );
  }

pub cmp_text-reversed : (s t : Text) → cmp_text t s ≡ reverse (cmp_text s t)
unfolding cmp_text
cmp_text-reversed [] [] = refl
cmp_text-reversed [] (d ∷ t) = refl
cmp_text-reversed (c ∷ s) [] = refl
cmp_text-reversed (c ∷ s) (d ∷ t) = ground (arith, cmp_text-reversed s t)

cmp_text-equal : (s t : Text) → cmp_text s t ≡ equal → s ≡ t
unfolding cmp_text
cmp_text-equal [] [] h = refl
cmp_text-equal [] (d ∷ t) h = absurd (ground arith)
cmp_text-equal (c ∷ s) [] h = absurd (ground arith)
cmp_text-equal (c ∷ s) (d ∷ t) h = ground (arith, cmp_text-equal s t)

cmp_text-transitive :
    (s t u : Text) → cmp_text s t ≡ less → cmp_text t u ≡ less → cmp_text s u ≡ less
unfolding cmp_text
cmp_text-transitive [] [] u h k = absurd (ground arith)
cmp_text-transitive [] (d ∷ t) [] h k = absurd (ground arith)
cmp_text-transitive [] (d ∷ t) (e ∷ u) h k = refl
cmp_text-transitive (c ∷ s) [] u h k = absurd (ground arith)
cmp_text-transitive (c ∷ s) (d ∷ t) [] h k = absurd (ground arith)
cmp_text-transitive (c ∷ s) (d ∷ t) (e ∷ u) h k = ground (arith, cmp_text-transitive s t u)

pub cmp_text-IsOrder : IsOrder cmp_text
cmp_text-IsOrder = record {
  reversed = cmp_text-reversed;
  alike = λ x y z h. ap (λ t. cmp_text t z) (cmp_text-equal x y h);
  transitive = cmp_text-transitive;
}

cmp_id-IsOrder : IsOrder cmp_id
unfolding cmp_id
cmp_id-IsOrder = lexicographic (by (λ (i : ItemId). i.requester.as_str) cmp_text-IsOrder) (
    lexicographic (by (λ (i : ItemId). i.project.as_str) cmp_text-IsOrder)
      (by (λ (i : ItemId). i.sequence) cmp-IsOrder))

-- Both item orders are orders.
pub cmp_items-IsOrder : (ordering : ItemListOrdering) → IsOrder (cmp_items ordering)
unfolding cmp_items
cmp_items-IsOrder newest_first =
    lexicographic (flipped (by (λ (i : Item). i.captured_at) cmp_text-IsOrder))
      (by (λ (i : Item). i.id) cmp_id-IsOrder)
cmp_items-IsOrder next = lexicographic (by (λ (i : Item). priority_rank i.priority) cmp-IsOrder) (
    lexicographic (by (λ (i : Item). i.captured_at) cmp_text-IsOrder)
      (by (λ (i : Item). i.id) cmp_id-IsOrder))

pub cmp_id-equal : (a b : ItemId) → cmp_id a b ≡ equal → a ≡ b
unfolding cmp_id
cmp_id-equal a b h =
    let r = cmp_text-equal a.requester.as_str b.requester.as_str (ground arith) in
    let p = cmp_text-equal a.project.as_str b.project.as_str (ground arith) in
    let n = cmp-equal a.sequence b.sequence (ground arith) in
    λ i. record {
      requester = record { as_str = r i };
      project = record { as_str = p i };
      sequence = n i;
    }

-- only items with one identity compare equal
pub cmp_items-equal :
    (ordering : ItemListOrdering) (a b : Item) → cmp_items ordering a b ≡ equal → a.id ≡ b.id
unfolding cmp_items
cmp_items-equal newest_first a b h = cmp_id-equal a.id b.id (ground arith)
cmp_items-equal next a b h = cmp_id-equal a.id b.id (ground arith)
