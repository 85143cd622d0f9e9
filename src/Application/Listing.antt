-- ===== src/Application/Listing.antt =====
-- src/application.rs: the filters, the orders and the pages of an item list.
pub mod Order
pub mod Sorting
pub mod Pages
use bif.Base.{
  ℕ, zero, suc, ◌+◌, Bool, true, false, ◌&&◌, List, [], ◌∷◌, Option, none, some, Result, ok, err,
  if◌then◌else◌, ltb, leb, length, ◌==◌, Eq,
}
use bif.Base.Text.{Text, has_text}
use bif.Domain.Identifier.{RequesterId, ProjectId, AssigneeId}
use bif.Domain.Item.{Item, ItemId, Status, Priority, p0, p1, p2, p3, p4}

-- `std::cmp::Ordering`, with `then` and `reverse`
pub data Ordering : Type 0 where
  less equal greater : Ordering

abbrev pub then_with : Ordering → Ordering → Ordering
then_with equal next = next
then_with less next = less
then_with greater next = greater

abbrev pub reverse : Ordering → Ordering
reverse less = greater
reverse equal = equal
reverse greater = less

abbrev pub cmp : ℕ → ℕ → Ordering
cmp m n = if ltb m n then less else if ltb n m then greater else equal

-- `str::cmp`: the order of UTF-8 bytes is that of the scalar values
unfoldable pub cmp_text : Text → Text → Ordering
cmp_text [] [] = equal
cmp_text [] (d ∷ t) = less
cmp_text (c ∷ s) [] = greater
cmp_text (c ∷ s) (d ∷ t) = then_with (cmp c d) (cmp_text s t)

-- the derived `Ord` of `ItemId`
unfoldable pub cmp_id : ItemId → ItemId → Ordering
cmp_id a b =
    then_with (cmp_text a.requester.as_str b.requester.as_str)
      (then_with (cmp_text a.project.as_str b.project.as_str) (cmp a.sequence b.sequence))

pub data InvalidItemTextFilter : Type 0 where
  invalid_item_text_filter : InvalidItemTextFilter

-- `ItemTextFilter(String)`
abbrev pub ItemTextFilter : Type 0
ItemTextFilter = Text

unfoldable pub new_text_filter : Text → Result ItemTextFilter InvalidItemTextFilter
new_text_filter value = if has_text value then ok value else err invalid_item_text_filter

pub record ItemListFilters : Type 0 where
  pub project : Option ProjectId
  pub requester : Option RequesterId
  pub assignee : Option AssigneeId
  pub status : Option Status
  pub priority : Option Priority
  pub unassigned : Bool
  pub text : Option ItemTextFilter

pub data InvalidPagination : Type 0 where
  invalid_pagination : InvalidPagination

abbrev pub max_page_size : ℕ
max_page_size = 100

-- `PageSize::new`
unfoldable pub new_page_size : ℕ → Result ℕ InvalidPagination
new_page_size value =
    if leb 1 value && leb value max_page_size then ok value else err invalid_pagination

pub record Pagination : Type 0 where
  pub limit : ℕ
  pub offset : ℕ

pub data ItemListOrdering : Type 0 where
  newest_first next : ItemListOrdering

pub record ItemPage : Type 0 where
  pub items : List Item
  pub next_offset : Option ℕ

abbrev pub priority_rank : Option Priority → ℕ
priority_rank (some p0) = 0
priority_rank (some p1) = 1
priority_rank (some p2) = 2
priority_rank (some p3) = 3
priority_rank (some p4) = 4
priority_rank none = 5

-- the closure of `order_items`
unfoldable pub cmp_items : ItemListOrdering → Item → Item → Ordering
cmp_items newest_first left right =
    then_with (cmp_text right.captured_at left.captured_at) (cmp_id left.id right.id)
cmp_items next left right =
    then_with (cmp (priority_rank left.priority) (priority_rank right.priority))
      (then_with (cmp_text left.captured_at right.captured_at) (cmp_id left.id right.id))

-- `sort_by`, which is stable: an element goes in front of the ones that it does not come after
module _ {A : Type 0} where
  abbrev pub insert : (A → A → Ordering) → A → List A → List A
  insert compare x [] = x ∷ []
  insert compare x (y ∷ ys) =
      let further = y ∷ insert compare x ys in
      elim (compare x y) [ greater ↦ further | _ ↦ x ∷ y ∷ ys ]

  abbrev pub sort_by : (A → A → Ordering) → List A → List A
  sort_by compare [] = []
  sort_by compare (x ∷ xs) = insert compare x (sort_by compare xs)

unfoldable pub order_items : List Item → ItemListOrdering → List Item
unfolding cmp_items
order_items items ordering = sort_by (cmp_items ordering) items

module _ {A : Type 0} where
  abbrev pub skip : ℕ → List A → List A
  skip zero xs = xs
  skip (suc n) [] = []
  skip (suc n) (x ∷ xs) = skip n xs

  abbrev pub take : ℕ → List A → List A
  take zero xs = []
  take (suc n) [] = []
  take (suc n) (x ∷ xs) = x ∷ take n xs

-- `NamedViewStore::select_item_page` behind `select_items`
unfoldable pub item_page : List Item → ItemListOrdering → Pagination → ItemPage
item_page selected ordering pagination =
    let items =
      take (pagination.limit + 1) (skip pagination.offset (order_items selected ordering)) in
    record {
      items = take pagination.limit items;
      next_offset =
          if ltb pagination.limit (length items)
          then some (pagination.offset + pagination.limit)
          else none;
    }
