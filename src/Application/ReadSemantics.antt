-- ===== src/Application/ReadSemantics.antt =====
-- src/application/read_semantics.rs: what an item query means, and the order of its keys.
pub mod Keys
use bif.Base.{
  ℕ, ◌+◌, Bool, true, false, not, ◌&&◌, ◌||◌, List, [], ◌∷◌, ◌++◌, Option, none, some, Result, ok,
  err, ◌>>=◌, Stopped, failed, panicked, if◌then◌else◌, ◌==◌, option_eq, nat_eq, any, map,
}
use bif.Base.Text.{Text}
pub use bif.Base.Text.Strings.{to_ascii_lowercase}
use bif.Domain.Identifier.{RequesterId, ProjectId, AssigneeId, new_assignee, InvalidIdentifier}
use bif.Domain.Item.{
  Item, ItemId, ItemContent, Status, Priority, status_eq, priority_eq, requester_eq, project_eq,
  assignee_eq, Timestamp,
}
use bif.Domain.Item as I
use bif.Domain.View.{NamedView, view_eq}
use bif.Domain.View as V
use bif.Application.Listing.{
  Ordering, less, equal, greater, reverse, cmp, cmp_text, ItemListFilters, ItemListOrdering,
  newest_first, next, priority_rank,
}

pub data AssigneeFilter : Type 0 where
  any_assignee unassigned : AssigneeFilter
  assigned : AssigneeId → AssigneeFilter

pub data InvalidProjectionFilters : Type 0 where
  invalid_projection_filters : InvalidProjectionFilters

pub record EffectiveItemFilters : Type 0 where
  pub statuses : List Status
  pub project : Option ProjectId
  pub requester : Option RequesterId
  pub assignee : AssigneeFilter
  pub priority : Option Priority
  pub text : Option Text

-- `STATUSES`
abbrev pub statuses : List Status
statuses = I.proposed ∷ I.ready ∷ I.in_progress ∷ I.blocked ∷ I.done ∷ I.rejected ∷ []

-- the `match view`
abbrev pub view_statuses : NamedView → List Status
view_statuses V.proposed = I.proposed ∷ []
view_statuses V.ready = I.ready ∷ []
view_statuses V.active = I.in_progress ∷ I.blocked ∷ []
view_statuses V.blocked = I.blocked ∷ []
view_statuses V.done = I.done ∷ []
view_statuses V.rejected = I.rejected ∷ []
view_statuses V.mine = I.proposed ∷ I.ready ∷ I.in_progress ∷ I.blocked ∷ []
view_statuses V.all = statuses

-- `Vec::retain`
abbrev pub retain : (Status → Bool) → List Status → List Status
retain p [] = []
retain p (s ∷ ss) = let kept = retain p ss in if p s then s ∷ kept else kept

abbrev pub narrowed : Option Status → List Status → List Status
narrowed none ss = ss
narrowed (some status) ss = retain (λ candidate. candidate == status) ss

abbrev pub is_some : Option AssigneeId → Bool
is_some none = false
is_some (some a) = true

abbrev pub explicit_assignee : ItemListFilters → AssigneeFilter
explicit_assignee filters =
    if filters.unassigned
    then unassigned
    else elim filters.assignee [ none ↦ any_assignee | some a ↦ assigned a ]

-- the statuses of the view `mine` under an explicit assignee
abbrev pub mine_statuses : AssigneeId → AssigneeFilter → List Status → List Status
mine_statuses mine unassigned ss = []
mine_statuses mine (assigned explicit) ss = if explicit == mine then ss else []
mine_statuses mine any_assignee ss = ss

-- `AssigneeId::new(…).expect(…)`
abbrev pub expected :
    Result AssigneeId InvalidIdentifier → Result AssigneeId (Stopped InvalidProjectionFilters)
expected (ok a) = ok a
expected (err e) = err panicked

-- the `if view == NamedView::Mine`
abbrev pub scoped :
    Bool
    → RequesterId
    → AssigneeFilter
    → List Status
    → Result (AssigneeFilter × List Status) (Stopped InvalidProjectionFilters)
scoped false configured_requester assignee ss = ok (assignee, ss)
scoped true configured_requester assignee ss = do
  mine ← expected (new_assignee configured_requester.as_str)
  ok (assigned mine, mine_statuses mine assignee ss)

abbrev pub lowercase_text : Option Text → Option Text
lowercase_text none = none
lowercase_text (some t) = some (to_ascii_lowercase t)

abbrev pub effective : ItemListFilters → AssigneeFilter → List Status → EffectiveItemFilters
effective filters assignee [] = record {
  statuses = [];
  project = none;
  requester = none;
  assignee = any_assignee;
  priority = none;
  text = none;
}
effective filters assignee (s ∷ ss) = record {
  statuses = s ∷ ss;
  project = filters.project;
  requester = filters.requester;
  assignee = assignee;
  priority = filters.priority;
  text = lowercase_text filters.text;
}

-- `EffectiveItemFilters::new`
unfoldable pub new_filters :
    NamedView
    → RequesterId
    → ItemListFilters
    → Result EffectiveItemFilters (Stopped InvalidProjectionFilters)
new_filters view configured_requester filters =
    if is_some filters.assignee && filters.unassigned
    then err (failed invalid_projection_filters)
    else do
      (assignee, ss) ←
          scoped (view == V.mine) configured_requester (explicit_assignee filters)
            (narrowed filters.status (view_statuses view))
      ok (effective filters assignee ss)

-- `Option::is_none_or`
abbrev pub is_none_or {ℓ} : {A : Type ℓ} → (A → Bool) → Option A → Bool
is_none_or p none = true
is_none_or p (some a) = p a

abbrev pub assignee_matches : AssigneeFilter → Option AssigneeId → Bool
assignee_matches any_assignee held = true
assignee_matches (assigned a) held = held == some a
assignee_matches unassigned none = true
assignee_matches unassigned (some a) = false

-- `str::contains`
abbrev pub starts_with : Text → Text → Bool
starts_with [] s = true
starts_with (c ∷ needle) [] = false
starts_with (c ∷ needle) (d ∷ s) = (c == d) && starts_with needle s

unfoldable pub contains : Text → Text → Bool
contains needle [] = starts_with needle []
contains needle (c ∷ s) = starts_with needle (c ∷ s) || contains needle s

-- `once(title).chain(description).chain(acceptance_criteria)`
abbrev pub searched : ItemContent → List Text
searched content = content.title ∷ (elim content.description [
  | none ↦ content.acceptance_criteria
  | some d ↦ d ∷ content.acceptance_criteria
])

unfoldable pub matches : EffectiveItemFilters → Item → Bool
unfolding contains
matches filters item =
    any (λ s. s == item.status) filters.statuses
    && (is_none_or (λ project. project == item.id.project) filters.project
        && (is_none_or (λ requester. requester == item.id.requester) filters.requester
            && (assignee_matches filters.assignee item.assignee
                && (is_none_or (λ priority. item.priority == some priority) filters.priority
                    && is_none_or
                        (λ needle.
                          any (λ value. contains needle (to_ascii_lowercase value))
                            (searched item.content))
                        filters.text))))

pub data ItemSortField : Type 0 where
  priority_rank_field captured_at_field requester_field project_field sequence_field : ItemSortField

pub data SortDirection : Type 0 where
  ascending descending : SortDirection

pub record ItemSortTerm : Type 0 where
  pub field : ItemSortField
  pub direction : SortDirection

-- `IDENTITY_ORDER`
abbrev pub identity_order : List ItemSortTerm
identity_order =
    record { field = requester_field; direction = ascending }
    ∷ record { field = project_field; direction = ascending }
    ∷ record { field = sequence_field; direction = ascending }
    ∷ []

-- `LIST_ORDER` and `NEXT_ORDER`
abbrev pub sort_spec : ItemListOrdering → List ItemSortTerm
sort_spec newest_first =
    record { field = captured_at_field; direction = descending } ∷ identity_order
sort_spec next =
    record { field = priority_rank_field; direction = ascending }
    ∷ record { field = captured_at_field; direction = ascending }
    ∷ identity_order

pub record ItemReadKey : Type 0 where
  pub id : ItemId
  pub captured_at : Timestamp
  pub priority : Option Priority

abbrev pub key_of : Item → ItemReadKey
key_of item = record { id = item.id; captured_at = item.captured_at; priority = item.priority }

abbrev pub compare_field : ItemSortField → ItemReadKey → ItemReadKey → Ordering
compare_field priority_rank_field left right =
    cmp (priority_rank left.priority) (priority_rank right.priority)
compare_field captured_at_field left right = cmp_text left.captured_at right.captured_at
compare_field requester_field left right =
    cmp_text left.id.requester.as_str right.id.requester.as_str
compare_field project_field left right = cmp_text left.id.project.as_str right.id.project.as_str
compare_field sequence_field left right = cmp left.id.sequence right.id.sequence

abbrev pub directed : SortDirection → Ordering → Ordering
directed ascending comparison = comparison
directed descending comparison = reverse comparison

-- the loop of `compare_keys`
abbrev pub compare_terms : List ItemSortTerm → ItemReadKey → ItemReadKey → Ordering
compare_terms [] left right = equal
compare_terms (term ∷ terms) left right =
    let later = compare_terms terms left right in
    elim (directed term.direction (compare_field term.field left right)) [
      | equal ↦ later
      | less ↦ less
      | greater ↦ greater
    ]

unfoldable pub compare_keys : ItemListOrdering → ItemReadKey → ItemReadKey → Ordering
compare_keys ordering left right = compare_terms (sort_spec ordering) left right

abbrev pub is_greater : Ordering → Bool
is_greater greater = true
is_greater _ = false

unfoldable pub is_after : ItemListOrdering → ItemReadKey → ItemReadKey → Bool
unfolding compare_keys
is_after ordering candidate boundary = is_greater (compare_keys ordering candidate boundary)
