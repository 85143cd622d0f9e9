-- ===== src/Application/Cursors/Encode.antt =====
-- src/application/cursors.rs: the encoding of a key under a size limit.
use bif.Base.{
  ℕ, ◌+◌, ◌-◌, ◌*◌, ◌/◌, ◌^◌, List, [], ◌∷◌, ◌++◌, some, Result, ok, err, ◌>>=◌, ◌>>◌, map_err,
  if◌then◌else◌, list_eq, nat_eq, ltb, leb, length,
}
use mathlib.Core.Option
use bif.Base.Text.{Text, Bytes}
use bif.Base.Text.Hex.{hex}
use bif.Domain.View.{view_eq}
use bif.Application.ReadSemantics.{ItemReadKey}
use bif.Application.History.{HistoryReadKey}
use bif.Application.Cursors.{
  max_cursor_bytes, prefix, max_envelope_bytes, InvalidCursor, kind_eq, to_wire, Boundary, Envelope,
  Json, item_boundary, history_boundary,
}
use bif.Application.Cursors.Context.{CursorContext, require_item_kind, require_history_kind}
use bif.Application.Cursors.Wire.{to_value}

-- `BoundedEnvelope`
pub record BoundedEnvelope : Type 0 where
  pub bytes : Bytes
  pub total : ℕ

pub data CursorEncodeError : Type 0 where
  invalid_context : InvalidCursor → CursorEncodeError
  too_large : ℕ → CursorEncodeError
  serialization : CursorEncodeError

abbrev pub max_usize : ℕ
max_usize = 2 ^ 64 - 1

-- `BoundedEnvelope::write` of a chunk
unfoldable pub write : BoundedEnvelope → Bytes → Result BoundedEnvelope CursorEncodeError
write w chunk =
    let total = w.total + length chunk in
    if ltb ((max_usize - 6) / 2) total
    then err serialization
    else ok (record {
      bytes = if leb total max_envelope_bytes then w.bytes ++ chunk else w.bytes;
      total = total;
    })

unfoldable pub write_all : List Bytes → BoundedEnvelope → Result BoundedEnvelope CursorEncodeError
unfolding write
write_all [] w = ok w
write_all (chunk ∷ chunks) w = write w chunk >>= λ next. write_all chunks next

abbrev pub envelope_of : CursorContext → Boundary → Envelope
envelope_of c boundary = record {
  cursor_version = 1;
  kind = c.kind;
  store_id = c.store_id;
  generation = some c.generation;
  query_fingerprint = c.query_fingerprint;
  order_version = 1;
  projection_schema_version = 1;
  boundary = boundary;
}

unfoldable pub encode : Json → CursorContext → Boundary → Result Text CursorEncodeError
unfolding write_all hex to_value
encode json c boundary = do
  writer ←
      write_all (json.to_chunks (to_value (envelope_of c boundary)))
        (record { bytes = []; total = 0 })
  let encoded_token_bytes = 6 + writer.total * 2
  if ltb max_cursor_bytes encoded_token_bytes
      then err (too_large encoded_token_bytes)
      else ok (prefix ++ hex writer.bytes)

abbrev pub item_wire : ItemReadKey → Boundary
item_wire key = item_boundary (record {
  requester = key.id.requester.as_str;
  project = key.id.project.as_str;
  sequence = key.id.sequence;
  captured_at = key.captured_at;
  priority = Option.map to_wire key.priority;
})

abbrev pub history_wire : HistoryReadKey → Boundary
history_wire key =
    history_boundary (record { item_revision = key.item_revision; event_index = key.event_index })

unfoldable pub encode_item_key : Json → CursorContext → ItemReadKey → Result Text CursorEncodeError
unfolding encode require_item_kind to_wire
encode_item_key json c key =
    map_err invalid_context (require_item_kind c) >> encode json c (item_wire key)

unfoldable pub encode_history_key :
    Json → CursorContext → HistoryReadKey → Result Text CursorEncodeError
unfolding encode require_history_kind
encode_history_key json c key =
    map_err invalid_context (require_history_kind c) >> encode json c (history_wire key)
