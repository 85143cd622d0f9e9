-- ===== src/Storage/Listing/Queries/Boundary.antt =====
-- The continuation of a page in SQL.
use bif.Base.{
  ◌^◌, ◌<◌, ◌≡◌, refl, ◌∙◌, ◌&&◌, List, [], ◌∷◌, Option, none, some, arith, list_eq, nat_eq,
  option_eq, Option-cases, inl, inr, List-discrete, Option-discrete, ℕ_discrete,
}
use mathlib.Core.Option
use bif.Base.Int.{as_i64_of_lt}
use bif.Domain.Item.{Item, Priority, p0, p1, p2, p3, p4}
use bif.Application.Listing.{less, ItemListOrdering, priority_rank}
use bif.Application.ReadSemantics.{
  ItemSortField, priority_rank_field, captured_at_field, requester_field, project_field,
  sequence_field, ItemSortTerm, ItemReadKey, key_of, sort_spec, compare_field, compare_terms,
  compare_keys, is_after, is_greater,
}
use bif.Storage.Codec.{item_columns, priority_text}
use bif.Storage.Listing.{
  Value, rank_column, coordinate, bound_value, cmp_value, alternatives, leading, boundary_predicate,
}

pub rank_column-priority_rank :
    (p : Option Priority) → rank_column (Option.map priority_text p) ≡ priority_rank p
unfolding rank_column priority_text List-discrete Option-discrete ℕ_discrete
rank_column-priority_rank none = refl
rank_column-priority_rank (some p0) = refl
rank_column-priority_rank (some p1) = refl
rank_column-priority_rank (some p2) = refl
rank_column-priority_rank (some p3) = refl
rank_column-priority_rank (some p4) = refl

-- a column compares with the value of the boundary as the field of the key does
cmp_value-compare_field :
    (f : ItemSortField) (item : Item) (b : ItemReadKey) (v : Value)
    → item.id.sequence < 2 ^ 63
    → bound_value f b ≡ some v
    → cmp_value (coordinate f (item_columns item)) v ≡ compare_field f (key_of item) b
unfolding item_columns
cmp_value-compare_field priority_rank_field item b v h e =
    ground (arith, rank_column-priority_rank item.priority)
cmp_value-compare_field captured_at_field item b v h e = ground arith
cmp_value-compare_field requester_field item b v h e = ground arith
cmp_value-compare_field project_field item b v h e = ground arith
cmp_value-compare_field sequence_field item b v h e = ground (arith, as_i64_of_lt item.id.sequence)

-- a sequence beyond the INTEGERs is above every stored one
bound_value-none :
    (f : ItemSortField) (item : Item) (b : ItemReadKey)
    → item.id.sequence < 2 ^ 63
    → bound_value f b ≡ none
    → compare_field f (key_of item) b ≡ less
bound_value-none priority_rank_field item b h e = absurd (ground arith)
bound_value-none captured_at_field item b h e = absurd (ground arith)
bound_value-none requester_field item b h e = absurd (ground arith)
bound_value-none project_field item b h e = absurd (ground arith)
bound_value-none sequence_field item b h e = ground arith

alternatives-compare_terms :
    (terms : List ItemSortTerm) (item : Item) (b : ItemReadKey)
    → item.id.sequence < 2 ^ 63
    → alternatives terms b (item_columns item) ≡ is_greater (compare_terms terms (key_of item) b)
alternatives-compare_terms [] item b h = refl
alternatives-compare_terms (term ∷ terms) item b h =
    let rest = alternatives-compare_terms terms item b h in
    elim (Option-cases (bound_value term.field b)) [
      | inl e ↦ let below = bound_value-none term.field item b h e in ground arith
      | inr (v, e) ↦ let same = cmp_value-compare_field term.field item b v h e in ground arith
    ]

leading-alternatives :
    (terms : List ItemSortTerm) (item : Item) (b : ItemReadKey)
    → (leading terms b (item_columns item) && alternatives terms b (item_columns item))
      ≡ alternatives terms b (item_columns item)
leading-alternatives [] item b = refl
leading-alternatives (term ∷ terms) item b = ground arith

-- The continuation that `page_query` writes in SQL holds of the row of an item exactly if the key of
-- the item comes after the boundary, even where the boundary's sequence fits no INTEGER, if the
-- item's own sequence does.
pub boundary_predicate-is_after :
    (ordering : ItemListOrdering) (item : Item) (b : ItemReadKey)
    → item.id.sequence < 2 ^ 63
    → boundary_predicate ordering (some b) (item_columns item) ≡ is_after ordering (key_of item) b
unfolding boundary_predicate is_after compare_keys
boundary_predicate-is_after ordering item b h =
    leading-alternatives (sort_spec ordering) item b
    ∙ alternatives-compare_terms (sort_spec ordering) item b h
