-- ===== src/Application/Reads/Walk.antt =====
-- A reader that follows the pages of the list use cases.
use bif.Base.{
  ℕ, zero, suc, ◌<◌, ◌≡◌, ◌⊎◌, inl, inr, refl, ap, ◌∙◌, true, List, ◌++◌, Option, none, some,
  Result, ok, err, ◌>>=◌, arith, Bool-cases, length, Option-cases,
}
use mathlib.Core.Option
use bif.Domain.Identifier.{RequesterId}
use bif.Domain.Item.{Item}
use bif.Domain.View.{NamedView}
use bif.Domain.View as V
use bif.Application.Authorize.{AuthorizationRequest, Unauthorized, authorize}
use bif.Application.Authorize as A
use bif.Application.Authorize.Policy.{Allowed, authorize_iff}
use bif.Application.Listing.{
  ItemListFilters, ItemListOrdering, newest_first, next, Pagination, ItemPage, item_page,
  order_items,
}
use bif.Application.Listing.Pages.{walk, walk_complete}
use bif.Application.UseCases.Guard.{authorize-cases, refused-⊥}
use bif.Application.Reads.{
  SelectNamedViewError, unauthorized, is_read, authorize_read, NamedViewStore, list_item_page,
  next_item_page,
}

-- page after page, on fuel; a page that is refused ends the walk
unfoldable pub follow :
    {E : Type 0}
    → (Pagination → Result ItemPage (SelectNamedViewError E))
    → ℕ
    → ℕ
    → ℕ
    → Option (Result (List Item) (SelectNamedViewError E))
follow page zero limit offset = none
follow page (suc fuel) limit offset = elim (page (record { limit = limit; offset = offset })) [
  | err e ↦ some (err e)
  | ok p ↦ elim p.next_offset [
    | none ↦ some (ok p.items)
    | some o ↦
        Option.map (λ rest. rest >>= λ items. ok (p.items ++ items)) (follow page fuel limit o)
  ]
]

follow-walk :
    {E : Type 0} (page : Pagination → Result ItemPage (SelectNamedViewError E))
    (selected : List Item) (ordering : ItemListOrdering) (fuel limit offset : ℕ)
    → ((p : Pagination) → page p ≡ ok (item_page selected ordering p))
    → follow page fuel limit offset ≡ Option.map ok (walk fuel selected ordering limit offset)
unfolding follow walk
follow-walk page selected ordering zero limit offset h = refl
follow-walk page selected ordering (suc fuel) limit offset h =
    let p : Pagination = record { limit = limit; offset = offset } in
    let read = h p in
    elim (Option-cases (item_page selected ordering p).next_offset) [
      | inl last ↦ ground arith
      | inr (o, more) ↦
          let rest = follow-walk page selected ordering fuel limit o h in
          elim (Option-cases (walk fuel selected ordering limit o)) [
            | inl e ↦ ground arith
            | inr (items, e) ↦ ground arith
          ]
    ]

-- the reading is allowed, or it is refused
authorize_read-cases :
    (r : AuthorizationRequest)
    → ((is_read r.command ≡ true) × Allowed r × (authorize_read r ≡ ok tt))
      ⊎ (((is_read r.command ≡ true) × Allowed r → ⊥) × (authorize_read r ≡ err A.unauthorized))
unfolding authorize_read
authorize_read-cases r = elim (Bool-cases (is_read r.command)) [
  | inr other ↦ inr ((λ h. ground arith), ground arith)
  | inl reads ↦ elim (authorize-cases r) [
    | inl allowed ↦ inl (reads, (authorize_iff r).0 allowed, ground arith)
    | inr refused ↦ inr ((λ h. refused-⊥ r refused h.1), ground arith)
  ]
]

-- what a reader is answered who follows the pages of a list
abbrev pub Reads :
    {E : Type 0}
    → AuthorizationRequest
    → List Item
    → Option (Result (List Item) (SelectNamedViewError E))
    → Type 0
Reads r ordered answer =
    ((is_read r.command ≡ true) × Allowed r × (answer ≡ some (ok ordered)))
    ⊎ (((is_read r.command ≡ true) × Allowed r → ⊥)
        × (answer ≡ some (err (unauthorized A.unauthorized))))

-- on a store whose pages are those of an ordered selection
pub pages_complete :
    {E : Type 0} (store : NamedViewStore E) (r : AuthorizationRequest) (view : NamedView)
    (requester : RequesterId) (filters : ItemListFilters) (listed ready : List Item) (limit : ℕ)
    → ((p : Pagination)
        → store.select_item_page view requester filters newest_first p
          ≡ ok (item_page listed newest_first p))
    → ((p : Pagination)
        → store.select_item_page V.ready requester filters next p ≡ ok (item_page ready next p))
    → 0 < limit
    → Reads r
        (order_items listed newest_first)
        (follow (list_item_page store r view requester filters) (suc (length listed)) limit 0)
      × Reads r
          (order_items ready next)
          (follow (next_item_page store r requester filters) (suc (length ready)) limit 0)
unfolding list_item_page next_item_page follow
pages_complete store r view requester filters listed ready limit h k positive =
    elim (authorize_read-cases r) [
      | inl (reads, allowed, passed) ↦
          let all = walk_complete listed newest_first limit positive in
          let all_ready = walk_complete ready next limit positive in
          let one =
            follow-walk (list_item_page store r view requester filters) listed newest_first
              (suc (length listed)) limit 0 (λ p. ground (arith, h p)) in
          let two =
            follow-walk (next_item_page store r requester filters) ready next (suc (length ready))
              limit 0 (λ p. ground (arith, k p)) in
          (
            inl (reads, allowed, one ∙ ap (Option.map ok) all),
            inl (reads, allowed, two ∙ ap (Option.map ok) all_ready),
          )
      | inr (barred, refused) ↦ (inr (barred, ground arith), inr (barred, ground arith))
    ]
