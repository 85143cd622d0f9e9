-- ===== src/Tests/ListingTests.antt =====
-- src/application.rs, src/application/read_semantics.rs and src/storage/projection_reads.rs: lists of items.
use bif.Base.{
  suc, length, ◌++◌, ℕ_discrete, ◌≡◌, refl, sym, ap, ◌∙◌, false, ◌&&◌, List, [], ◌∷◌, none, some,
  ok, arith, list_eq, nat_eq,
}
use mathlib.Core.List.{Memᴰ, Permᴰ}
use bif.Base.Text.{codes, has_text, is_whitespace, utf8, encode_char, to_lower}
use bif.Samples.{davis, by_codex, item, item_id, db}
use bif.Tests.StorageTests.{db-IsStored, item-IsStorable}
use bif.Domain.Item.Display.{display, padded, to_decimal, digits}
use bif.Application.Fingerprint.{ItemQueryFingerprintInput, next_operation, work}
use bif.Application.Fingerprint.Injectivity.{IsEncodable, canonical_bytes-injective}
use bif.Storage.Mutate.Stored.{no_fault}
use bif.Storage.Listing.Selected.{keep, Holds, IsArrangement, select_items, select_items-members}
use bif.Storage.Db.{ItemEntry}
use bif.Domain.Item.{Item, ItemId}
use bif.Domain.View as V
use bif.Domain.View.{NamedView, NamedView-discrete}
use bif.Application.Listing.{ItemListFilters, newest_first, next, order_items, cmp_items}
use bif.Application.Listing.Sorting.{Sorted, Identified, order_items-Sorted}
use bif.Application.Authorize.{AuthorizationRequest, observed_agent, read}
use bif.Application.Reads.{NamedViewStore, list_item_page, next_item_page}
use bif.Application.Reads.Walk.{Reads, follow}
use bif.Storage.Listing.Legacy.{item_repository}
use bif.Storage.Listing.Legacy.Pages.{quiet, members}
use bif.Storage.Listing.Legacy.Walk.{list_pages_complete}
use bif.Storage.Codec.{ItemStorageError}
use bif.Application.ReadSemantics.{
  EffectiveItemFilters, assigned, effective, narrowed, view_statuses, new_filters, matches, key_of,
}
use bif.Application.ReadSemantics as Semantics
use bif.Storage.Codec.{item_columns}
use bif.Storage.Listing.{selects, page_predicate}
use bif.Storage.Listing.Queries.Members.{IsFilter, member, member-selects}
use bif.Storage.Listing.Queries.Selection.{continues, page_predicate-matches}

-- an item captured later
abbrev later : Item
later = record item {
  id = record item_id { sequence = 8 };
  captured_at = codes "2026-01-05T00:00:00Z";
  priority = none;
}

abbrev items : List Item
items = item ∷ later ∷ []

apart : (x y : Item) → x ≡ item → y ≡ later → x.id ≡ y.id → ⊥
apart x y a b e =
    let n : item.id.sequence ≡ later.id.sequence =
      ap (λ (i : Item). i.id.sequence) (sym a)
      ∙ ap (λ (i : ItemId). i.sequence) e
      ∙ ap (λ (i : Item). i.id.sequence) b in
    omega (arith, n)

items-Identified : Identified items
items-Identified x y (Memᴰ.head a) (Memᴰ.head b) e = a ∙ sym b
items-Identified x y (Memᴰ.head a) (Memᴰ.tail (Memᴰ.head b)) e = absurd (apart x y a b e)
items-Identified x y (Memᴰ.tail (Memᴰ.head a)) (Memᴰ.head b) e = absurd (apart y x b a (sym e))
items-Identified x y (Memᴰ.tail (Memᴰ.head a)) (Memᴰ.tail (Memᴰ.head b)) e = a ∙ sym b
items-Identified x y (Memᴰ.head a) (Memᴰ.tail (Memᴰ.tail m)) e = elim m [ ]
items-Identified x y (Memᴰ.tail (Memᴰ.head a)) (Memᴰ.tail (Memᴰ.tail m)) e = elim m [ ]
items-Identified x y (Memᴰ.tail (Memᴰ.tail m)) n e = elim m [ ]

order_items-Sorted_example :
    Permᴰ items (order_items items newest_first)
    × Sorted (cmp_items newest_first) (order_items items newest_first)
    × ((other : List Item)
        → Permᴰ items other
        → order_items other newest_first ≡ order_items items newest_first)
order_items-Sorted_example = order_items-Sorted items newest_first items-Identified

abbrev reader : AuthorizationRequest
reader = record {
  actor = davis;
  execution = by_codex;
  observed_execution = observed_agent (codes "codex-1");
  command = read;
  human_authorization = none;
}

abbrev filters : ItemListFilters
filters = record {
  project = some item_id.project;
  requester = none;
  assignee = none;
  status = none;
  priority = none;
  unassigned = false;
  text = some (codes "Journal");
}

filters_named : IsFilter filters
unfolding has_text is_whitespace ℕ_discrete
filters_named = refl

member-selects_example :
    member (new_filters V.all item_id.requester filters) item
    ≡ selects V.all item_id.requester filters (item_columns item) item.content.acceptance_criteria
member-selects_example = member-selects V.all item_id.requester filters item refl filters_named

abbrev query : EffectiveItemFilters
query = effective filters Semantics.any_assignee (view_statuses V.ready)

query_accepted : new_filters V.ready item_id.requester filters ≡ ok query
unfolding new_filters NamedView-discrete
query_accepted = refl

page_predicate-matches_example :
    page_predicate query next
      (some (key_of later))
      (item_columns item)
      item.content.acceptance_criteria
    ≡ (matches query item && continues next (some (key_of later)) item)
page_predicate-matches_example =
    page_predicate-matches V.ready item_id.requester filters query next (some (key_of later)) item
      query_accepted filters_named (omega arith)

backwards : List ItemEntry → List ItemEntry
backwards [] = []
backwards (e ∷ es) = backwards es ++ e ∷ []

append-Permᴰ : (e : ItemEntry) (es : List ItemEntry) → Permᴰ (es ++ e ∷ []) (e ∷ es)
append-Permᴰ e [] = Permᴰ.cons refl Permᴰ.nil
append-Permᴰ e (x ∷ es) = Permᴰ.trans (Permᴰ.cons refl (append-Permᴰ e es)) (Permᴰ.swap refl refl)

db-Holds : Holds db db.items (item ∷ [])
unfolding display padded to_decimal digits
db-Holds = ((refl, db-IsStored, item-IsStorable), tt)

-- an engine that answers the rows backwards
backwards-IsArrangement : IsArrangement backwards
unfolding backwards
backwards-IsArrangement [] = Permᴰ.nil
backwards-IsArrangement (e ∷ es) =
    Permᴰ.trans (append-Permᴰ e (backwards es)) (Permᴰ.cons refl (backwards-IsArrangement es))

select_items-members_example :
    (listed : List Item) × (select_items no_fault none backwards V.all item_id.requester filters db
      ≡ ok listed)
    × Permᴰ listed (keep (member (new_filters V.all item_id.requester filters)) (item ∷ []))
select_items-members_example =
    select_items-members backwards V.all item_id.requester filters db (item ∷ [])
      backwards-IsArrangement refl filters_named db-Holds

single-Identified : Identified (item ∷ [])
single-Identified x y (Memᴰ.head a) (Memᴰ.head b) e = a ∙ sym b
single-Identified x y (Memᴰ.head a) (Memᴰ.tail m) e = elim m [ ]
single-Identified x y (Memᴰ.tail m) n e = elim m [ ]

abbrev store : NamedViewStore ItemStorageError
store = item_repository no_fault none quiet (λ p. backwards) backwards db

abbrev listed : List Item
listed = members V.all item_id.requester filters (item ∷ [])

abbrev queue : List Item
queue = members V.ready item_id.requester filters (item ∷ [])

list_pages_complete_example :
    Reads reader (order_items listed newest_first) (
      follow
        (list_item_page store reader V.all item_id.requester filters)
        (suc (length listed))
        1
        0)
    × Reads reader
        (order_items queue next)
        (follow (next_item_page store reader item_id.requester filters) (suc (length queue)) 1 0)
list_pages_complete_example =
    list_pages_complete no_fault none (λ p. backwards) backwards db (item ∷ []) reader V.all
      item_id.requester filters 1 (λ p. backwards-IsArrangement) db-Holds single-Identified
      (omega arith) refl filters_named (omega arith)

abbrev fingerprint : ItemQueryFingerprintInput
fingerprint = record {
  operation = next_operation;
  store_identity = codes "store";
  projection_schema_version = 1;
  filters = query;
  ordering = next;
  projection = work;
}

fingerprint-IsEncodable : IsEncodable fingerprint
unfolding utf8 encode_char to_lower
fingerprint-IsEncodable = record {
  store_identity =
      ((omega arith, (omega arith, (omega arith, (omega arith, (omega arith, tt))))), omega arith);
  version = omega arith;
  statuses = omega arith;
  project = ((omega arith, (omega arith, (omega arith, tt))), omega arith);
  requester = tt;
  assignee = tt;
  text = (
    (
      omega arith,
      (omega arith, (omega arith, (omega arith, (omega arith, (omega arith, (omega arith, tt)))))),
    ),
    omega arith,
  );
}

canonical_bytes-injective_example : fingerprint ≡ fingerprint
canonical_bytes-injective_example =
    canonical_bytes-injective fingerprint fingerprint fingerprint-IsEncodable
      fingerprint-IsEncodable refl
