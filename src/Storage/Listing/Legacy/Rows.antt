-- ===== src/Storage/Listing/Legacy/Rows.antt =====
-- The rows of items are ordered in SQL as `order_items` orders the items.
use bif.Base.{◌≡◌, refl, ◌∙◌, true, List, [], ◌∷◌, ◌++◌, some, arith, list_eq, nat_eq}
use bif.Base.Text.{Text}
use bif.Base.Text.Strings.{split_once}
use bif.Base.Int.{as_i64_of_lt}
use bif.Domain.Identifier.{upper, lower}
use bif.Domain.Item.{Item, ItemId}
use bif.Domain.Item.Display.{display, IsCanonicalId, Lacks, canonical-Lacks}
use bif.Application.Listing.{ItemListOrdering, cmp_items}
use bif.Application.ReadSemantics.{
  ItemSortField, priority_rank_field, captured_at_field, requester_field, project_field,
  sequence_field, ItemSortTerm, key_of, sort_spec, compare_field, compare_terms, compare_keys,
}
use bif.Application.ReadSemantics.Keys.{compare_keys-cmp_items}
use bif.Storage.Codec.{item_columns}
use bif.Storage.Codec.RoundTrip.{IsStorable}
use bif.Storage.Db.{ItemEntry}
use bif.Storage.Listing.{cmp_value}
use bif.Storage.Listing.Queries.Boundary.{rank_column-priority_rank}
use bif.Storage.Listing.Legacy.{segment, behind, legacy_coordinate, compare_rows}

-- the row of an item
abbrev pub item_entry : Item → ItemEntry
item_entry item = record { item_id = display item.id; columns = item_columns item }

split_once-Lacks :
    (xs ys : Text) → Lacks b':' xs → split_once b':' (xs ++ b':' ∷ ys) ≡ some (xs, ys)
unfolding split_once
split_once-Lacks [] ys h = ground arith
split_once-Lacks (x ∷ xs) ys h = ground (arith, split_once-Lacks xs ys)

segment-display : (id : ItemId) → IsCanonicalId id → segment (display id) ≡ id.requester.as_str
unfolding segment display
segment-display id h =
    rw (split_once-Lacks id.requester.as_str _ (canonical-Lacks upper true _ h.0), segment) refl

project-display :
    (id : ItemId) → IsCanonicalId id → segment (behind (display id)) ≡ id.project.as_str
unfolding segment behind display
project-display id h =
    rw (split_once-Lacks id.requester.as_str _ (canonical-Lacks upper true _ h.0), behind)
      (rw (split_once-Lacks id.project.as_str _ (canonical-Lacks lower true _ h.1), segment) refl)

cmp_value-legacy :
    (f : ItemSortField) (a b : Item)
    → IsStorable a
    → IsStorable b
    → cmp_value (legacy_coordinate f (item_entry a)) (legacy_coordinate f (item_entry b))
      ≡ compare_field f (key_of a) (key_of b)
unfolding legacy_coordinate item_columns
cmp_value-legacy priority_rank_field a b h k =
    ground (arith, rank_column-priority_rank a.priority, rank_column-priority_rank b.priority)
cmp_value-legacy captured_at_field a b h k = refl
cmp_value-legacy requester_field a b h k =
    rw (segment-display a.id h.id, segment-display b.id k.id) refl
cmp_value-legacy project_field a b h k =
    rw (project-display a.id h.id, project-display b.id k.id) refl
cmp_value-legacy sequence_field a b h k =
    ground (
      arith,
      as_i64_of_lt a.id.sequence h.sequence_fits,
      as_i64_of_lt b.id.sequence k.sequence_fits,
    )

compare_rows-compare_terms :
    (terms : List ItemSortTerm) (a b : Item)
    → IsStorable a
    → IsStorable b
    → compare_rows terms (item_entry a) (item_entry b) ≡ compare_terms terms (key_of a) (key_of b)
compare_rows-compare_terms [] a b h k = refl
compare_rows-compare_terms (term ∷ terms) a b h k =
    ground (arith, cmp_value-legacy term.field a b h k, compare_rows-compare_terms terms a b h k)

-- the rows of two items compare as the items do in an item list
pub compare_rows-cmp_items :
    (ordering : ItemListOrdering) (a b : Item)
    → IsStorable a
    → IsStorable b
    → compare_rows (sort_spec ordering) (item_entry a) (item_entry b) ≡ cmp_items ordering a b
unfolding compare_keys
compare_rows-cmp_items ordering a b h k =
    compare_rows-compare_terms (sort_spec ordering) a b h k ∙ compare_keys-cmp_items ordering a b
