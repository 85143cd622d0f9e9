-- ===== src/Application/Cursors/Context.antt =====
-- src/application/cursors.rs: `CursorContext`, to which a cursor is bound.
use bif.Base.{
  Bool, true, false, not, ◌&&◌, List, [], ◌∷◌, ◌++◌, Option, none, some, Result, ok, err, ◌>>=◌,
  ◌>>◌, Stopped, if◌then◌else◌, ◌==◌, list_eq, nat_eq,
}
use bif.Base.Text.{Text, Bytes, codes}
use bif.Domain.Identifier.{RequesterId}
use bif.Domain.Item.{ItemId}
use bif.Domain.View.{view_eq}
use bif.Domain.View as V
use bif.Application.Payload.{append_field, be_bytes}
use bif.Application.Sha256.{sha256}
use bif.Application.Fingerprint.{be_bytes_u32, canonical_bytes}
use bif.Application.ReadSemantics.{ItemReadKey, InvalidProjectionFilters, new_filters}
use bif.Application.Projections.{ItemProjectionPageRequest}
use bif.Application.History.{HistoryReadKey, HistoryPageRequest}
use bif.Application.Cursors.{
  InvalidCursor, CursorKind, kind_eq, Json, DecodedBoundary, DecodedCursor, wrong_kind, wrong_store,
  wrong_generation, wrong_query, history_kind, item_key, history_key,
}
use bif.Application.Cursors.Parse.{parse, require_kind, ordering_kind, ordering_operation}

pub record CursorContext : Type 0 where
  pub kind : CursorKind
  pub store_id : Text
  pub generation : Text
  pub query_fingerprint : Text

abbrev pub is_nil {ℓ} : {A : Type ℓ} → List A → Bool
is_nil [] = true
is_nil (x ∷ xs) = false

abbrev pub owner : Bool → RequesterId → Option Text
owner true requester = some requester.as_str
owner false requester = none

-- `CursorContext::item_page`; `EffectiveItemFilters::from_request` is called twice with one result
unfoldable pub item_page :
    Text
    → Text
    → ItemProjectionPageRequest
    → Result CursorContext (Stopped InvalidProjectionFilters)
unfolding canonical_bytes new_filters
item_page store_id generation request = do
  filters ← new_filters request.view request.configured_requester request.filters
  let bytes = canonical_bytes (record {
    operation = ordering_operation request.ordering;
    store_identity = store_id;
    projection_schema_version = 1;
    filters = filters;
    ordering = request.ordering;
    projection = request.projection;
  })
  let empty_mine = request.view == V.mine && is_nil filters.statuses
  ok (record {
    kind = ordering_kind request.ordering;
    store_id = store_id;
    generation = generation;
    query_fingerprint = sha256 (append_field bytes (owner empty_mine request.configured_requester));
  })

unfoldable pub history_bytes : Text → ItemId → Bytes
unfolding append_field be_bytes be_bytes_u32
history_bytes store_id item_id =
    let bytes = codes "BIF:history-query:1" ++ 0 ∷ [] in
    let bytes = append_field bytes (some store_id) in
    let bytes = append_field bytes (some item_id.requester.as_str) in
    let bytes = append_field bytes (some item_id.project.as_str) in
    let bytes = bytes ++ be_bytes item_id.sequence in
    let bytes = bytes ++ be_bytes_u32 1 in bytes ++ be_bytes_u32 1

-- `CursorContext::history`
unfoldable pub history : Text → Text → HistoryPageRequest → CursorContext
unfolding history_bytes
history store_id generation request = record {
  kind = history_kind;
  store_id = store_id;
  generation = generation;
  query_fingerprint = sha256 (history_bytes store_id request.item_id);
}

-- the private `require_item_kind` and `require_history_kind` of the context
unfoldable pub require_item_kind : CursorContext → Result (Unit {0}) InvalidCursor
require_item_kind c = if c.kind == history_kind then err wrong_kind else ok tt

unfoldable pub require_history_kind : CursorContext → Result (Unit {0}) InvalidCursor
require_history_kind c = if c.kind == history_kind then ok tt else err wrong_kind

unfoldable pub bind : CursorContext → DecodedCursor → Result DecodedBoundary InvalidCursor
unfolding require_kind
bind c cursor =
    require_kind c.kind cursor
    >> (if not (cursor.store_id == c.store_id)
        then err wrong_store
        else if not (cursor.generation == c.generation)
        then err wrong_generation
        else if not (cursor.query_fingerprint == c.query_fingerprint)
        then err wrong_query
        else ok cursor.boundary)

abbrev pub as_item : DecodedBoundary → Result ItemReadKey InvalidCursor
as_item (item_key k) = ok k
as_item (history_key k) = err wrong_kind

abbrev pub as_history : DecodedBoundary → Result HistoryReadKey InvalidCursor
as_history (item_key k) = err wrong_kind
as_history (history_key k) = ok k

unfoldable pub bind_item_key : CursorContext → DecodedCursor → Result ItemReadKey InvalidCursor
unfolding bind require_item_kind
bind_item_key c cursor = require_item_kind c >> (bind c cursor >>= λ b. as_item b)

unfoldable pub bind_history_key :
    CursorContext → DecodedCursor → Result HistoryReadKey InvalidCursor
unfolding bind require_history_kind
bind_history_key c cursor = require_history_kind c >> (bind c cursor >>= λ b. as_history b)

unfoldable pub decode_item_key : Json → CursorContext → Text → Result ItemReadKey InvalidCursor
unfolding parse bind_item_key
decode_item_key json c token =
    require_item_kind c >> (parse json token >>= λ cursor. bind_item_key c cursor)

unfoldable pub decode_history_key :
    Json → CursorContext → Text → Result HistoryReadKey InvalidCursor
unfolding parse bind_history_key
decode_history_key json c token =
    require_history_kind c >> (parse json token >>= λ cursor. bind_history_key c cursor)
