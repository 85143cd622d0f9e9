-- ===== src/Storage/Listing.antt =====
-- src/storage.rs: `select_items`, the WHERE clause of an item list, and the one that
-- src/storage/projection_reads.rs builds in `page_query`.
pub mod Queries
pub mod Selected
pub mod Legacy
use bif.Base.{
  ℕ, Bool, true, false, not, ◌&&◌, ◌||◌, List, [], ◌∷◌, Option, none, some, if◌then◌else◌, ◌==◌,
  list_eq, nat_eq, option_eq, any, length, map, ltb,
}
use bif.Base.Text.{Text, codes}
use bif.Base.Int.{ℤ, pos, negsuc}
use bif.Domain.Identifier.{RequesterId, ProjectId, AssigneeId}
use bif.Domain.Item.{Status, Priority}
use bif.Domain.View.{NamedView}
use bif.Domain.View as V
use bif.Application.Listing.{
  Ordering, less, equal, greater, cmp, cmp_text, ItemListFilters, ItemListOrdering, priority_rank,
}
use bif.Application.ReadSemantics.{
  EffectiveItemFilters, AssigneeFilter, any_assignee, unassigned, assigned, is_none_or, contains,
  to_ascii_lowercase, ItemSortField, priority_rank_field, captured_at_field, requester_field,
  project_field, sequence_field, ItemSortTerm, SortDirection, ascending, descending, ItemReadKey,
  sort_spec, is_greater,
}
use bif.Storage.Codec.{ItemColumns, status_text, priority_text}
use bif.Storage.Journal.{max_i64}

-- the `predicate` of a view; a comparison with NULL does not hold
unfoldable pub view_predicate : NamedView → RequesterId → ItemColumns → Bool
view_predicate V.proposed configured_requester i = i.status == codes "proposed"
view_predicate V.ready configured_requester i = i.status == codes "ready"
view_predicate V.active configured_requester i =
    (i.status == codes "in_progress") || (i.status == codes "blocked")
view_predicate V.blocked configured_requester i = i.status == codes "blocked"
view_predicate V.done configured_requester i = i.status == codes "done"
view_predicate V.rejected configured_requester i = i.status == codes "rejected"
view_predicate V.mine configured_requester i =
    not ((i.status == codes "done") || (i.status == codes "rejected"))
    && (i.assignee == some (to_ascii_lowercase configured_requester.as_str))
view_predicate V.all configured_requester i = true

-- `IS NULL`
abbrev pub is_null : Option Text → Bool
is_null none = true
is_null (some t) = false

-- `coalesce(x, '')`
abbrev pub coalesce : Option Text → Text
coalesce none = []
coalesce (some t) = t

-- `instr(lower(…), needle) > 0` of the title, the description or a criterion
abbrev pub text_predicate : Text → ItemColumns → List Text → Bool
text_predicate needle i criteria =
    contains needle (to_ascii_lowercase i.title)
    || (contains needle (to_ascii_lowercase (coalesce i.description))
        || any (λ c. contains needle (to_ascii_lowercase c)) criteria)

-- the WHERE clause of `select_items`
unfoldable pub selects : NamedView → RequesterId → ItemListFilters → ItemColumns → List Text → Bool
unfolding view_predicate
selects view configured_requester filters i criteria =
    view_predicate view configured_requester i
    && (is_none_or (λ (p : ProjectId). i.project_id == p.as_str) filters.project
        && (is_none_or (λ (r : RequesterId). i.requester == r.as_str) filters.requester
            && (is_none_or (λ (a : AssigneeId). i.assignee == some a.as_str) filters.assignee
                && (is_none_or (λ s. i.status == status_text s) filters.status
                    && (is_none_or (λ p. i.priority == some (priority_text p)) filters.priority
                        && ((if filters.unassigned then is_null i.assignee else true)
                            && is_none_or (λ t. text_predicate (to_ascii_lowercase t) i criteria)
                                filters.text))))))

-- the values that a sort term compares
pub data Value : Type 0 where
  integer : ℤ → Value
  text : Text → Value

-- `PRIORITY_RANK`, the CASE expression
unfoldable pub rank_column : Option Text → ℕ
rank_column p =
    if p == some (codes "P0")
    then 0
    else if p == some (codes "P1")
    then 1
    else if p == some (codes "P2")
    then 2
    else if p == some (codes "P3")
    then 3
    else if p == some (codes "P4")
    then 4
    else 5

abbrev pub coordinate : ItemSortField → ItemColumns → Value
coordinate priority_rank_field i = integer (pos (rank_column i.priority))
coordinate captured_at_field i = text i.captured_at
coordinate requester_field i = text i.requester
coordinate project_field i = text i.project_id
coordinate sequence_field i = integer i.sequence

-- the value of the boundary, if it fits an INTEGER
abbrev pub bound_value : ItemSortField → ItemReadKey → Option Value
bound_value priority_rank_field k = some (integer (pos (priority_rank k.priority)))
bound_value captured_at_field k = some (text k.captured_at)
bound_value requester_field k = some (text k.id.requester.as_str)
bound_value project_field k = some (text k.id.project.as_str)
bound_value sequence_field k =
    if ltb max_i64 k.id.sequence then none else some (integer (pos k.id.sequence))

abbrev pub cmp_int : ℤ → ℤ → Ordering
cmp_int (pos m) (pos n) = cmp m n
cmp_int (pos m) (negsuc n) = greater
cmp_int (negsuc m) (pos n) = less
cmp_int (negsuc m) (negsuc n) = cmp n m

-- SQLite's comparison: a number comes before a text, and texts compare in binary
abbrev pub cmp_value : Value → Value → Ordering
cmp_value (integer m) (integer n) = cmp_int m n
cmp_value (integer m) (text t) = less
cmp_value (text s) (integer n) = greater
cmp_value (text s) (text t) = cmp_text s t

abbrev pub is_equal : Ordering → Bool
is_equal equal = true
is_equal _ = false

abbrev pub is_less : Ordering → Bool
is_less less = true
is_less _ = false

-- `column > value`, or `column < value` for a descending term
abbrev pub beyond : SortDirection → Ordering → Bool
beyond ascending comparison = is_greater comparison
beyond descending comparison = is_less comparison

-- the loop over the terms that collects `alternatives`, under their `equal_prefix`
abbrev pub alternatives : List ItemSortTerm → ItemReadKey → ItemColumns → Bool
alternatives [] boundary i = false
alternatives (term ∷ terms) boundary i =
    let rest = alternatives terms boundary i in
    elim (bound_value term.field boundary) [
      | none ↦ elim term.direction [ descending ↦ true | ascending ↦ false ]
      | some v ↦
          let comparison = cmp_value (coordinate term.field i) v in
          beyond term.direction comparison || (is_equal comparison && rest)
    ]

-- the range of the first term, pushed while `equal_prefix` is empty
abbrev pub leading : List ItemSortTerm → ItemReadKey → ItemColumns → Bool
leading [] boundary i = true
leading (term ∷ terms) boundary i = elim (bound_value term.field boundary) [
  | none ↦ true
  | some v ↦
      let comparison = cmp_value (coordinate term.field i) v in
      beyond term.direction comparison || is_equal comparison
]

unfoldable pub boundary_predicate : ItemListOrdering → Option ItemReadKey → ItemColumns → Bool
boundary_predicate ordering none i = true
boundary_predicate ordering (some boundary) i =
    leading (sort_spec ordering) boundary i && alternatives (sort_spec ordering) boundary i

abbrev pub status_predicate : List Status → ItemColumns → Bool
status_predicate ss i = if length ss == 6 then true else any (λ s. i.status == status_text s) ss

abbrev pub assignee_predicate : AssigneeFilter → ItemColumns → Bool
assignee_predicate any_assignee i = true
assignee_predicate unassigned i = is_null i.assignee
assignee_predicate (assigned a) i = i.assignee == some a.as_str

-- the WHERE clause of `page_query`
unfoldable pub page_predicate :
    EffectiveItemFilters → ItemListOrdering → Option ItemReadKey → ItemColumns → List Text → Bool
unfolding boundary_predicate
page_predicate filters ordering after i criteria =
    status_predicate filters.statuses i
    && (is_none_or (λ (p : ProjectId). i.project_id == p.as_str) filters.project
        && (is_none_or (λ (r : RequesterId). i.requester == r.as_str) filters.requester
            && (is_none_or (λ p. i.priority == some (priority_text p)) filters.priority
                && (assignee_predicate filters.assignee i
                    && (is_none_or (λ needle. text_predicate needle i criteria) filters.text
                        && boundary_predicate ordering after i)))))
