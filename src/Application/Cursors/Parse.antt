-- ===== src/Application/Cursors/Parse.antt =====
-- src/application/cursors.rs: `DecodedCursor`.
use bif.Base.{
  ◌%◌, Bool, true, false, not, ◌&&◌, ◌||◌, [], ◌∷◌, Result, ok, err, ◌>>=◌, map_err, ok_or,
  if◌then◌else◌, ◌==◌, list_eq, nat_eq, ltb, length,
}
use mathlib.Core.Option
use bif.Base.Text.{Text, Bytes, utf8}
use bif.Base.Text.Strings.{strip_prefix}
use bif.Base.Text.Hex.{unhex}
use bif.Domain.Identifier.{new_requester, new_project}
use bif.Domain.Item.{new_item_id, new_revision}
use bif.Domain.View.{view_eq}
use bif.Application.Fingerprint.{ItemReadOperation, list_operation, next_operation}
use bif.Application.Listing.{ItemListOrdering, newest_first, next}
use bif.Storage.Journal.{parse_generation}
use bif.Application.Cursors.{
  max_cursor_bytes, prefix, InvalidCursor, CursorKind, kind_eq, from_wire, Boundary, Envelope, Json,
  DecodedBoundary, DecodedCursor, malformed, oversized, wrong_kind, generation_missing,
  unsupported_version, list_kind, next_kind, history_kind, item_boundary, history_boundary,
  item_key, history_key,
}
use bif.Application.Cursors.Wire.{read_envelope}

abbrev pub as_malformed : {A E : Type 0} → Result A E → Result A InvalidCursor
as_malformed r = map_err (λ _. malformed) r

-- the `match envelope.boundary`
unfoldable pub decode_boundary : Boundary → Result DecodedBoundary InvalidCursor
unfolding from_wire
decode_boundary (item_boundary key) = do
  requester ← as_malformed (new_requester key.requester)
  project ← as_malformed (new_project key.project)
  if not (requester.as_str == key.requester) || not (project.as_str == key.project)
      then err malformed
      else (do
        id ← as_malformed (new_item_id requester project key.sequence)
        ok (
            item_key (record {
              id = id;
              captured_at = key.captured_at;
              priority = Option.map from_wire key.priority;
            })))
decode_boundary (history_boundary key) = do
  revision ← as_malformed (new_revision key.item_revision)
  ok (history_key (record { item_revision = revision; event_index = key.event_index }))

-- the `matches!` of the kind and the boundary
abbrev pub kind_fits : CursorKind → DecodedBoundary → Bool
kind_fits list_kind (item_key k) = true
kind_fits next_kind (item_key k) = true
kind_fits history_kind (history_key k) = true
kind_fits _ _ = false

abbrev pub is_supported : Envelope → Bool
is_supported e = e.cursor_version == 1 && (e.order_version == 1 && e.projection_schema_version == 1)

-- from the version checks of `DecodedCursor::parse` on
unfoldable pub check_envelope : Envelope → Result DecodedCursor InvalidCursor
unfolding decode_boundary
check_envelope e = if not (is_supported e) then err unsupported_version else (do
  generation ← ok_or generation_missing e.generation
  valid ← as_malformed (parse_generation generation)
  boundary ← decode_boundary e.boundary
  if not (kind_fits e.kind boundary)
      then err wrong_kind
      else ok (record {
        kind = e.kind;
        store_id = e.store_id;
        generation = generation;
        query_fingerprint = e.query_fingerprint;
        boundary = boundary;
      }))

abbrev pub is_pairs : Bytes → Bool
is_pairs [] = false
is_pairs (c ∷ s) = length (c ∷ s) % 2 == 0

-- `DecodedCursor::parse`; what serde_json reads streams into the envelope, and every refusal is the same
unfoldable pub parse : Json → Text → Result DecodedCursor InvalidCursor
unfolding check_envelope strip_prefix unhex read_envelope
parse json token = if ltb max_cursor_bytes (length (utf8 token)) then err oversized else (do
  digits ← ok_or malformed (strip_prefix prefix (utf8 token))
  if not (is_pairs digits) then err malformed else (do
    bytes ← ok_or malformed (unhex digits)
    value ← ok_or malformed (json.from_slice bytes)
    envelope ← ok_or malformed (read_envelope value)
    check_envelope envelope))

unfoldable pub require_kind : CursorKind → DecodedCursor → Result (Unit {0}) InvalidCursor
require_kind kind cursor = if cursor.kind == kind then ok tt else err wrong_kind

abbrev pub ordering_kind : ItemListOrdering → CursorKind
ordering_kind newest_first = list_kind
ordering_kind next = next_kind

abbrev pub ordering_operation : ItemListOrdering → ItemReadOperation
ordering_operation newest_first = list_operation
ordering_operation next = next_operation

-- `DecodedCursor::require_item_kind` and `require_history_kind`
unfoldable pub require_cursor_item_kind :
    ItemListOrdering → DecodedCursor → Result (Unit {0}) InvalidCursor
unfolding require_kind
require_cursor_item_kind ordering cursor = require_kind (ordering_kind ordering) cursor

unfoldable pub require_cursor_history_kind : DecodedCursor → Result (Unit {0}) InvalidCursor
unfolding require_kind
require_cursor_history_kind cursor = require_kind history_kind cursor
