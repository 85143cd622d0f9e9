-- ===== src/Storage/Listing/Queries/Selection.antt =====
-- The WHERE clause of `page_query` selects the members of the query behind the boundary.
use bif.Base.{
  ◌^◌, ◌<◌, ◌≤◌, ◌≡◌, refl, sym, subst, Bool, true, false, ◌&&◌, List, [], ◌∷◌, Option, none, some,
  Result, ok, arith, ◌==◌, list_eq, nat_eq, option_eq, any, length, Stopped, ◌>>=◌, >>=-eq-ok,
  ℕ_discrete, Bool-cases, inl, inr,
}
use bif.Base.Text.{Text, has_text}
use bif.Domain.Identifier.{RequesterId, ProjectId, AssigneeId, new_assignee}
use bif.Domain.Item.{
  Item, Status, proposed, ready, in_progress, blocked, done, rejected, Status-discrete, status_eq,
  priority_eq, requester_eq, project_eq, assignee_eq,
}
use bif.Domain.View.{NamedView, view_eq}
use bif.Domain.View as V
use bif.Application.Listing.{ItemListFilters, ItemListOrdering}
use bif.Application.ReadSemantics.{
  EffectiveItemFilters, InvalidProjectionFilters, AssigneeFilter, any_assignee, unassigned,
  assigned, explicit_assignee, mine_statuses, is_some, scoped, expected, statuses, view_statuses,
  retain, narrowed, is_none_or, assignee_matches, contains, to_ascii_lowercase, searched, effective,
  lowercase_text, new_filters, matches, ItemReadKey, key_of, is_after,
}
use bif.Storage.Codec.{item_columns, priority_text}
use bif.Storage.Listing.{
  page_predicate, status_predicate, assignee_predicate, text_predicate, boundary_predicate,
}
use bif.Storage.Listing.Queries.Boundary.{boundary_predicate-is_after}
use bif.Storage.Listing.Queries.Filters.{
  project_same, requester_same, assignee_same, priority_same, statuses_same, all_statuses,
}
use bif.Storage.Listing.Queries.Members.{IsFilter, contains_nil, is_none_or-same, searched-text}

length-retain : (p : Status → Bool) (ss : List Status) → length (retain p ss) ≤ length ss
length-retain p [] = omega arith
length-retain p (s ∷ ss) = ground (arith, length-retain p ss)

-- a set of all six statuses, which no predicate is written for
AllIfSix : List Status → Type 0
AllIfSix ss = (s : Status) → length ss ≡ 6 → any (λ t. t == s) ss ≡ true

six-statuses : (fs : Option Status) → AllIfSix (narrowed fs statuses)
unfolding AllIfSix Status-discrete
six-statuses none s h = all_statuses s
six-statuses (some proposed) s h = absurd (omega arith)
six-statuses (some ready) s h = absurd (omega arith)
six-statuses (some in_progress) s h = absurd (omega arith)
six-statuses (some blocked) s h = absurd (omega arith)
six-statuses (some done) s h = absurd (omega arith)
six-statuses (some rejected) s h = absurd (omega arith)

short : (fs : Option Status) (ss : List Status) → length ss ≤ 4 → AllIfSix (narrowed fs ss)
unfolding AllIfSix
short none ss h s six = absurd (omega arith)
short (some t) ss h s six = absurd (omega (arith, length-retain (λ c. c == t) ss))

narrowed-AllIfSix :
    (view : NamedView) (fs : Option Status) → AllIfSix (narrowed fs (view_statuses view))
narrowed-AllIfSix V.proposed fs = short fs (view_statuses V.proposed) (omega arith)
narrowed-AllIfSix V.ready fs = short fs (view_statuses V.ready) (omega arith)
narrowed-AllIfSix V.active fs = short fs (view_statuses V.active) (omega arith)
narrowed-AllIfSix V.blocked fs = short fs (view_statuses V.blocked) (omega arith)
narrowed-AllIfSix V.done fs = short fs (view_statuses V.done) (omega arith)
narrowed-AllIfSix V.rejected fs = short fs (view_statuses V.rejected) (omega arith)
narrowed-AllIfSix V.mine fs = short fs (view_statuses V.mine) (omega arith)
narrowed-AllIfSix V.all fs = six-statuses fs

mine-AllIfSix :
    (mine : AssigneeId) (explicit : AssigneeFilter) (ss : List Status)
    → AllIfSix ss
    → AllIfSix (mine_statuses mine explicit ss)
unfolding AllIfSix
mine-AllIfSix mine unassigned ss a s h = absurd (omega arith)
mine-AllIfSix mine any_assignee ss a s h = a s h
mine-AllIfSix mine (assigned e) ss a s h = ground (arith, a s)

status_predicate-any :
    (ss : List Status) (item : Item)
    → AllIfSix ss
    → status_predicate ss (item_columns item) ≡ any (λ t. t == item.status) ss
unfolding AllIfSix item_columns
status_predicate-any ss item a = ground (arith, a item.status, statuses_same ss item.status)

assignee_predicate-matches :
    (f : AssigneeFilter) (item : Item)
    → assignee_predicate f (item_columns item) ≡ assignee_matches f item.assignee
unfolding item_columns
assignee_predicate-matches any_assignee item = refl
assignee_predicate-matches unassigned item = ground arith
assignee_predicate-matches (assigned a) item = assignee_same item.assignee a

-- the rows behind the boundary, if there is one
abbrev pub continues : ItemListOrdering → Option ItemReadKey → Item → Bool
continues ordering none item = true
continues ordering (some b) item = is_after ordering (key_of item) b

boundary-continues :
    (ordering : ItemListOrdering) (after : Option ItemReadKey) (item : Item)
    → item.id.sequence < 2 ^ 63
    → boundary_predicate ordering after (item_columns item) ≡ continues ordering after item
unfolding boundary_predicate
boundary-continues ordering none item h = refl
boundary-continues ordering (some b) item h = boundary_predicate-is_after ordering item b h

needles :
    (o : Option Text) (item : Item)
    → is_none_or has_text o ≡ true
    → is_none_or
        (λ needle. text_predicate needle (item_columns item) item.content.acceptance_criteria)
        (lowercase_text o)
      ≡ is_none_or
          (λ needle.
            any (λ value. contains needle (to_ascii_lowercase value)) (searched item.content))
          (lowercase_text o)
needles none item h = refl
needles (some t) item h = sym (searched-text (to_ascii_lowercase t) item (contains_nil t h))

page-effective :
    (filters : ItemListFilters) (assignee : AssigneeFilter) (ss : List Status)
    (ordering : ItemListOrdering) (after : Option ItemReadKey) (item : Item)
    → AllIfSix ss
    → IsFilter filters
    → item.id.sequence < 2 ^ 63
    → page_predicate
        (effective filters assignee ss)
        ordering
        after
        (item_columns item)
        item.content.acceptance_criteria
      ≡ (matches (effective filters assignee ss) item && continues ordering after item)
unfolding page_predicate matches item_columns ℕ_discrete
page-effective filters assignee [] ordering after item a h n = refl
page-effective filters assignee (s ∷ ss) ordering after item a h n =
    let project =
      is_none_or-same (λ (p : ProjectId). item.id.project.as_str == p.as_str)
        (λ p. p == item.id.project) filters.project (λ p. project_same item.id.project p) in
    let requester =
      is_none_or-same (λ (p : RequesterId). item.id.requester.as_str == p.as_str)
        (λ p. p == item.id.requester) filters.requester (λ p. requester_same item.id.requester p) in
    let priority =
      is_none_or-same (λ p. (item_columns item).priority == some (priority_text p))
        (λ p. item.priority == some p) filters.priority (priority_same item.priority) in
    let words = needles filters.text item h in
    let status = status_predicate-any (s ∷ ss) item a in
    let held = assignee_predicate-matches assignee item in
    let more = boundary-continues ordering after item n in ground arith

-- what a scope leaves of statuses of which six are all
scoped-AllIfSix :
    (own : Bool) (r : RequesterId) (explicit assignee : AssigneeFilter) (ss rest : List Status)
    → AllIfSix ss
    → scoped own r explicit ss ≡ ok (assignee, rest)
    → AllIfSix rest
scoped-AllIfSix false r explicit assignee ss rest a h =
    let same : ss ≡ rest = ground arith in subst AllIfSix same a
scoped-AllIfSix true r explicit assignee ss rest a h =
    let (mine, _, done_) = >>=-eq-ok (expected (new_assignee r.as_str)) _ h in
    let same : mine_statuses mine explicit ss ≡ rest = ground arith in
    subst AllIfSix same (mine-AllIfSix mine explicit ss a)

new_filters-effective :
    (view : NamedView) (r : RequesterId) (filters : ItemListFilters) (f : EffectiveItemFilters)
    → new_filters view r filters ≡ ok f
    → (assignee : AssigneeFilter) × (ss : List Status) × AllIfSix ss
      × (f ≡ effective filters assignee ss)
unfolding new_filters
new_filters-effective view r filters f h =
    elim (Bool-cases (is_some filters.assignee && filters.unassigned)) [
      | inl both ↦ absurd (ground arith)
      | inr either ↦
          let scope =
            scoped (view == V.mine) r (explicit_assignee filters)
              (narrowed filters.status (view_statuses view)) in
          let answer : AssigneeFilter × List Status
              → Result EffectiveItemFilters (Stopped InvalidProjectionFilters) =
            λ x. ok (effective filters x.0 x.1) in
          let chain : (scope >>= answer) ≡ ok f = ground arith in
          let ((assignee, ss), within, last) = >>=-eq-ok scope answer chain in
          (
            assignee,
            ss,
            scoped-AllIfSix (view == V.mine) r (explicit_assignee filters) assignee
                (narrowed filters.status (view_statuses view)) ss
                (narrowed-AllIfSix view filters.status) within,
            ground arith,
          )
    ]

-- The WHERE clause that `page_query` builds for a normalized query holds of the row of an item exactly
-- if the query has the item for a member and its key comes after the boundary, if there is one: for
-- every query that `new` accepts, if a text filter is not blank and the item's sequence fits an INTEGER.
pub page_predicate-matches :
    (view : NamedView) (r : RequesterId) (filters : ItemListFilters) (f : EffectiveItemFilters)
    (ordering : ItemListOrdering) (after : Option ItemReadKey) (item : Item)
    → new_filters view r filters ≡ ok f
    → IsFilter filters
    → item.id.sequence < 2 ^ 63
    → page_predicate f ordering after (item_columns item) item.content.acceptance_criteria
      ≡ (matches f item && continues ordering after item)
page_predicate-matches view r filters f ordering after item accepted h n =
    let (assignee, ss, a, same) = new_filters-effective view r filters f accepted in
    subst
      (λ (g : EffectiveItemFilters).
        page_predicate g ordering after (item_columns item) item.content.acceptance_criteria
        ≡ (matches g item && continues ordering after item))
      (sym same) (page-effective filters assignee ss ordering after item a h n)
