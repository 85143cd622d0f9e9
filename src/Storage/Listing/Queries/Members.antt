-- ===== src/Storage/Listing/Queries/Members.antt =====
-- The reference membership of an item query, the filters of `select_items` and those of `page_query`.
use bif.Base.{
  ◌≡◌, refl, sym, ap, ◌∙◌, Bool, true, false, ◌&&◌, List, [], ◌∷◌, Option, none, some, Result, ok,
  err, arith, ◌==◌, list_eq, nat_eq, option_eq, any, if◌then◌else◌, Stopped, Bool-cases, inl, inr,
  Option-discrete, Option-cases,
}
use mathlib.Core.Option
use bif.Base.Text.{Text, has_text}
use bif.Domain.Identifier.{
  RequesterId, ProjectId, AssigneeId, lower, upper, new_assignee, fold_case,
}
use bif.Domain.Identifier.Canonical.{IsCanonical, normalize_identifier_of_canonical}
use bif.Domain.Item.{Item, Status, status_eq, priority_eq, requester_eq, project_eq, assignee_eq}
use bif.Domain.View.{NamedView, view_eq}
use bif.Domain.View as V
use bif.Application.Listing.{ItemListFilters}
use bif.Application.ReadSemantics.{
  EffectiveItemFilters, InvalidProjectionFilters, AssigneeFilter, assigned, explicit_assignee,
  mine_statuses, is_some, view_statuses, narrowed, is_none_or, assignee_matches, contains,
  to_ascii_lowercase, searched, effective, lowercase_text, new_filters, matches,
}
use bif.Storage.Codec.{item_columns, priority_text, status_text}
use bif.Storage.Listing.{view_predicate, selects, is_null, text_predicate}
use bif.Storage.Listing.Queries.Filters.{
  ==-iff, ==-sound, project_same, requester_same, assignee_same, priority_same, narrowed-any,
  view_predicate-statuses,
}

-- the items that the result of `new` selects
abbrev pub member : Result EffectiveItemFilters (Stopped InvalidProjectionFilters) → Item → Bool
member (ok filters) item = matches filters item
member (err e) item = false

-- the text filter passed `ItemTextFilter::new`
abbrev pub IsFilter : ItemListFilters → Type 0
IsFilter filters = is_none_or has_text filters.text ≡ true

pub contains_nil :
    (needle : Text) → has_text needle ≡ true → contains (to_ascii_lowercase needle) [] ≡ false
unfolding has_text contains
contains_nil [] h = absurd (ground arith)
contains_nil (c ∷ needle) h = refl

pub searched-text :
    (needle : Text) (item : Item)
    → contains needle [] ≡ false
    → any (λ value. contains needle (to_ascii_lowercase value)) (searched item.content)
      ≡ text_predicate needle (item_columns item) item.content.acceptance_criteria
unfolding item_columns
searched-text needle item h = ground arith

-- the parts of the query that every view shares
abbrev rest_matches : ItemListFilters → Item → Bool
rest_matches filters item =
    is_none_or (λ project. project == item.id.project) filters.project
    && (is_none_or (λ requester. requester == item.id.requester) filters.requester
        && (is_none_or (λ priority. item.priority == some priority) filters.priority
            && is_none_or
                (λ needle.
                  any (λ value. contains needle (to_ascii_lowercase value)) (searched item.content))
                (lowercase_text filters.text)))

matches-effective :
    (filters : ItemListFilters) (assignee : AssigneeFilter) (ss : List Status) (item : Item)
    → matches (effective filters assignee ss) item ≡ (
        any (λ s. s == item.status) ss
        && (assignee_matches assignee item.assignee && rest_matches filters item))
unfolding matches
matches-effective filters assignee [] item = refl
matches-effective filters assignee (s ∷ ss) item = ground arith

pub is_none_or-same :
    {A : Type 0} (f g : A → Bool) (o : Option A)
    → ((a : A) → f a ≡ g a)
    → is_none_or f o ≡ is_none_or g o
is_none_or-same f g none h = refl
is_none_or-same f g (some a) h = h a

-- what an explicit assignee, and the flag `unassigned`, ask of a row
abbrev asks : ItemListFilters → Option AssigneeId → Bool
asks filters held =
    is_none_or (λ a. held == some a) filters.assignee
    && (if filters.unassigned
        then is_null (Option.map (λ (a : AssigneeId). a.as_str) held)
        else true)

text_filters :
    (filters : ItemListFilters) (item : Item)
    → IsFilter filters
    → is_none_or
        (λ t.
          text_predicate
            (to_ascii_lowercase t)
            (item_columns item)
            item.content.acceptance_criteria)
        filters.text
      ≡ is_none_or
          (λ needle.
            any (λ value. contains needle (to_ascii_lowercase value)) (searched item.content))
          (lowercase_text filters.text)
text_filters filters item h = by_text filters.text h
  where
    by_text :
        (o : Option Text)
        → is_none_or has_text o ≡ true
        → is_none_or
            (λ t.
              text_predicate
                (to_ascii_lowercase t)
                (item_columns item)
                item.content.acceptance_criteria)
            o
          ≡ is_none_or
              (λ needle.
                any (λ value. contains needle (to_ascii_lowercase value)) (searched item.content))
              (lowercase_text o)
    by_text none k = refl
    by_text (some t) k = sym (searched-text (to_ascii_lowercase t) item (contains_nil t k))

selects-parts :
    (view : NamedView) (r : RequesterId) (filters : ItemListFilters) (item : Item)
    → IsFilter filters
    → selects view r filters (item_columns item) item.content.acceptance_criteria ≡ (
        view_predicate view r (item_columns item)
        && (asks filters item.assignee
            && (is_none_or (λ t. status_text item.status == status_text t) filters.status
                && rest_matches filters item)))
unfolding selects item_columns
selects-parts view r filters item h =
    let project =
      is_none_or-same (λ (p : ProjectId). item.id.project.as_str == p.as_str)
        (λ p. p == item.id.project) filters.project (λ p. project_same item.id.project p) in
    let requester =
      is_none_or-same (λ (p : RequesterId). item.id.requester.as_str == p.as_str)
        (λ p. p == item.id.requester) filters.requester (λ p. requester_same item.id.requester p) in
    let assignee =
      is_none_or-same (λ (a : AssigneeId). (item_columns item).assignee == some a.as_str)
        (λ a. item.assignee == some a) filters.assignee (assignee_same item.assignee) in
    let priority =
      is_none_or-same (λ p. (item_columns item).priority == some (priority_text p))
        (λ p. item.priority == some p) filters.priority (priority_same item.priority) in
    let words = text_filters filters item h in ground arith

asks-explicit :
    (filters : ItemListFilters) (held : Option AssigneeId)
    → (is_some filters.assignee && filters.unassigned) ≡ false
    → assignee_matches (explicit_assignee filters) held ≡ asks filters held
asks-explicit filters held h = ground arith

asks_both :
    (filters : ItemListFilters) (held : Option AssigneeId)
    → (is_some filters.assignee && filters.unassigned) ≡ true
    → asks filters held ≡ false
unfolding Option-discrete
asks_both filters none h = ground arith
asks_both filters (some a) h = ground arith

some-injective : {x y : AssigneeId} → ◌≡◌ {A = Option AssigneeId} (some x) (some y) → x ≡ y
some-injective e = ground arith

held_same :
    (a e mine : AssigneeId) → (some a == some mine) ≡ true → (some a == some e) ≡ (e == mine)
held_same a e mine h =
    let own = ==-sound (some a) (some mine) h in
    ==-iff (some a) (some e) e mine (λ k. some-injective (sym k ∙ own)) (λ k. own ∙ ap some (sym k))

-- an explicit assignee beside the one of the view `mine`
mine_statuses-asks :
    (filters : ItemListFilters) (mine : AssigneeId) (ss : List Status) (s : Status)
    (held : Option AssigneeId)
    → (any (λ t. t == s) (mine_statuses mine (explicit_assignee filters) ss) && (held == some mine))
      ≡ (any (λ t. t == s) ss && (asks filters held && (held == some mine)))
unfolding Option-discrete
mine_statuses-asks filters mine ss s none = ground arith
mine_statuses-asks filters mine ss s (some a) = elim (Bool-cases (some a == some mine)) [
  | inr other ↦ ground arith
  | inl own ↦ elim (Option-cases filters.assignee) [
    | inl e ↦ ground arith
    | inr (x, e) ↦ let same = held_same a x mine own in ground arith
  ]
]

-- the assignee of the view `mine`
pub new_assignee-canonical :
    (r : RequesterId)
    → IsCanonical upper r.as_str
    → new_assignee r.as_str ≡ ok (record { as_str = to_ascii_lowercase r.as_str })
unfolding new_assignee fold_case
new_assignee-canonical r h = rw (normalize_identifier_of_canonical upper lower r.as_str h) refl

member-mine :
    (filters : ItemListFilters) (mine : AssigneeId) (ss : List Status) (item : Item)
    → matches
        (effective filters (assigned mine) (mine_statuses mine (explicit_assignee filters) ss))
        item
      ≡ ((any (λ t. t == item.status) ss && (item.assignee == some mine))
          && (asks filters item.assignee && rest_matches filters item))
member-mine filters mine ss item =
    let whole =
      matches-effective filters (assigned mine) (mine_statuses mine (explicit_assignee filters) ss)
        item in
    let asked = mine_statuses-asks filters mine ss item.status item.assignee in ground arith

-- A row is in a list of the compatible interface, by the WHERE clause of `select_items`, exactly if
-- the normalized query has its item for a member: for every view and all filters, a contradiction
-- between them included, if the configured requester is canonical and a text filter is not blank.
pub member-selects :
    (view : NamedView) (r : RequesterId) (filters : ItemListFilters) (item : Item)
    → IsCanonical upper r.as_str
    → IsFilter filters
    → member (new_filters view r filters) item
      ≡ selects view r filters (item_columns item) item.content.acceptance_criteria
unfolding new_filters item_columns
member-selects view r filters item canonical h =
    let parts = selects-parts view r filters item h in
    let viewed = view_predicate-statuses view r item in
    let within = narrowed-any filters.status (view_statuses view) item.status in
    elim (Bool-cases (is_some filters.assignee && filters.unassigned)) [
      | inl both ↦ let nothing = asks_both filters item.assignee both in ground arith
      | inr either ↦ elim (Bool-cases (view == V.mine)) [
        | inr other ↦
            let asked = asks-explicit filters item.assignee either in
            let whole =
              matches-effective filters (explicit_assignee filters)
                (narrowed filters.status (view_statuses view)) item in
            ground arith
        | inl own ↦
            let mine : AssigneeId = record { as_str = to_ascii_lowercase r.as_str } in
            let known = new_assignee-canonical r canonical in
            let held = assignee_same item.assignee mine in
            let whole =
              member-mine filters mine (narrowed filters.status (view_statuses view)) item in
            ground arith
      ]
    ]
