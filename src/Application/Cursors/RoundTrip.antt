-- ===== src/Application/Cursors/RoundTrip.antt =====
-- src/application/cursors.rs: a generated cursor continues the read that it was made for.
use bif.Base.{
  ℕ, ◌+◌, ◌*◌, ◌^◌, ◌<◌, ◌≤◌, ◌≡◌, ◌≢◌, refl, sym, ap, ◌∙◌, true, false, List, [], ◌∷◌, ◌++◌,
  append_assoc, append-nil, Option, none, some, ok, map_err, list_eq, nat_eq, ltb, length,
  length-append, All, All-append, arith, >>=-eq-ok, ℕ_discrete,
}
use mathlib.Core.Option
use bif.Base.Text.{Text, Bytes}
use bif.Base.Text.Strings.{strip_prefix}
use bif.Base.Text.Hex.{hex, unhex-hex, length-hex, IsAscii, hex-IsAscii, utf8-IsAscii}
use bif.Application.Cursors.{
  max_cursor_bytes, max_envelope_bytes, prefix, Json, Value, Envelope, Boundary, DecodedBoundary,
  item_key, history_key, CursorKind, list_kind, next_kind, history_kind, kind_eq, from_wire,
  to_wire,
}
use bif.Domain.Identifier.Canonical.{new_requester_canonical, new_project_canonical}
use bif.Domain.Item.{Priority, p0, new_item_id, new_revision}
use bif.Application.ReadSemantics.{ItemReadKey}
use bif.Application.History.{HistoryReadKey}
use bif.Application.Cursors.Wire.{to_value, read_envelope}
use bif.Application.Cursors.Wire.Laws.{IsWire, Fits, read_envelope-to_value}
use bif.Application.Cursors.Parse.{parse, check_envelope, decode_boundary, kind_fits, is_pairs}
use bif.Application.Cursors.Context.{
  CursorContext, require_item_kind, require_history_kind, decode_item_key, decode_history_key,
}
use bif.Application.Cursors.Encode.{
  BoundedEnvelope, write, write_all, envelope_of, encode, item_wire, history_wire, invalid_context,
  encode_item_key, encode_history_key,
}
use bif.Application.Cursors.Binding.{
  IsSoundBoundary, bind_iff, map_err-ok, guard-ok, ok-injective, not_over,
}
use bif.Storage.Journal.{parse_generation}

abbrev pub flatten : List Bytes → Bytes
flatten [] = []
flatten (chunk ∷ chunks) = chunk ++ flatten chunks

-- what serde_json writes for a JSON value is bytes that it reads as the value
pub record IsReadBack (json : Json) (v : Value) : Type 0 where
  pub bytes : All (λ b. b < 256) (flatten (json.to_chunks v))
  pub nonempty : flatten (json.to_chunks v) ≢ []
  pub read : json.from_slice (flatten (json.to_chunks v)) ≡ some v

-- the writer keeps all that it is given up to the limit, and counts on behind it
write-ok :
    (w next : BoundedEnvelope) (chunk : Bytes)
    → write w chunk ≡ ok next
    → (next.total ≡ w.total + length chunk)
      × (next.total ≤ max_envelope_bytes → next.bytes ≡ w.bytes ++ chunk)
unfolding write
write-ok w next chunk h = (ground arith, λ fits. ground arith)

write_all-ok :
    (chunks : List Bytes) (w last : BoundedEnvelope)
    → write_all chunks w ≡ ok last
    → (last.total ≡ w.total + length (flatten chunks))
      × (last.total ≤ max_envelope_bytes → last.bytes ≡ w.bytes ++ flatten chunks)
unfolding write_all
write_all-ok [] w last h = (ground arith, λ fits. ground (arith, append-nil w.bytes))
write_all-ok (chunk ∷ chunks) w last h =
    let (next, first, rest) = >>=-eq-ok (write w chunk) _ h in
    let (count, keep) = write-ok w next chunk first in
    let (counts, keeps) = write_all-ok chunks next last rest in
    (
      omega (arith, length-append {0} chunk (flatten chunks)),
      λ fits.
          keeps fits
          ∙ ap (λ b. b ++ flatten chunks) (keep (omega arith))
          ∙ append_assoc w.bytes chunk (flatten chunks),
    )

-- an encoded envelope is the prefix and the hexadecimal text of its bytes, within the limit
within : (m n : ℕ) → n ≤ m → ltb m n ≡ false
within m n h = ground arith

encode-ok :
    (json : Json) (c : CursorContext) (b : Boundary) (token : Text)
    → encode json c b ≡ ok token
    → let bytes = flatten (json.to_chunks (to_value (envelope_of c b))) in
      (token ≡ prefix ++ hex bytes) × (6 + length bytes * 2 ≤ max_cursor_bytes)
unfolding encode
encode-ok json c b token h =
    let (w, written, rest) =
      >>=-eq-ok
        (write_all (json.to_chunks (to_value (envelope_of c b))) (record { bytes = []; total = 0 }))
        _ h in
    let (count, keep) = write_all-ok (json.to_chunks (to_value (envelope_of c b))) _ w written in
    let (small, same) = guard-ok (ltb max_cursor_bytes (6 + w.total * 2)) _ _ token rest in
    let fits : 6 + w.total * 2 ≤ max_cursor_bytes = not_over _ _ small in
    (sym (ok-injective same) ∙ ap (λ x. prefix ++ hex x) (keep (omega arith)), omega arith)

strip_prefix-prefix : (s : Bytes) → strip_prefix prefix (prefix ++ s) ≡ some s
unfolding strip_prefix ℕ_discrete
strip_prefix-prefix s = refl

prefix-IsAscii : IsAscii prefix
prefix-IsAscii = omega arith

hex_pairs : (bytes : Bytes) → bytes ≢ [] → is_pairs (hex bytes) ≡ true
unfolding hex
hex_pairs [] h = absurd (h refl)
hex_pairs (b ∷ bytes) h = ground (arith, length-hex bytes)

-- a token within the limit is parsed to its envelope
parse-hex :
    (json : Json) (bytes : Bytes) (v : Value) (e : Envelope)
    → All (λ b. b < 256) bytes
    → bytes ≢ []
    → json.from_slice bytes ≡ some v
    → read_envelope v ≡ some e
    → 6 + length bytes * 2 ≤ max_cursor_bytes
    → parse json (prefix ++ hex bytes) ≡ check_envelope e
unfolding parse
parse-hex json bytes v e a z r known fits =
    let token = prefix ++ hex bytes in
    let ascii =
      utf8-IsAscii token
        (All-append (λ c. c < 0x80) prefix (hex bytes) prefix-IsAscii (hex-IsAscii bytes a)) in
    let size : ltb max_cursor_bytes (length token) ≡ false =
      within _ _ (omega (arith, length-hex bytes)) in
    rw
      (ascii, size, strip_prefix-prefix (hex bytes), hex_pairs bytes z, unhex-hex bytes a, r, known)
      refl

-- an envelope of a context and a key is accepted
check_envelope-envelope_of :
    (c : CursorContext) (b : Boundary) (d : DecodedBoundary)
    → parse_generation c.generation ≡ ok c.generation
    → decode_boundary b ≡ ok d
    → kind_fits c.kind d ≡ true
    → check_envelope (envelope_of c b)
      ≡ ok (record {
        kind = c.kind;
        store_id = c.store_id;
        generation = c.generation;
        query_fingerprint = c.query_fingerprint;
        boundary = d;
      })
unfolding check_envelope ℕ_discrete
check_envelope-envelope_of c b d g h k = rw (g, h, k) refl

envelope_of-IsWire : (c : CursorContext) (b : Boundary) → Fits b → IsWire (envelope_of c b)
envelope_of-IsWire c b h = record {
  cursor_version = omega arith;
  order_version = omega arith;
  projection_schema_version = omega arith;
  boundary = h;
}

parse-encode :
    (json : Json) (c : CursorContext) (b : Boundary) (d : DecodedBoundary) (token : Text)
    → IsReadBack json (to_value (envelope_of c b))
    → Fits b
    → parse_generation c.generation ≡ ok c.generation
    → decode_boundary b ≡ ok d
    → kind_fits c.kind d ≡ true
    → encode json c b ≡ ok token
    → parse json token
      ≡ ok (record {
        kind = c.kind;
        store_id = c.store_id;
        generation = c.generation;
        query_fingerprint = c.query_fingerprint;
        boundary = d;
      })
parse-encode json c b d token r machine g h k e =
    let (written, fits) = encode-ok json c b token e in
    let bytes = flatten (json.to_chunks (to_value (envelope_of c b))) in
    ap (parse json) written
    ∙ parse-hex json bytes (to_value (envelope_of c b)) (envelope_of c b) r.bytes r.nonempty r.read
        (read_envelope-to_value (envelope_of c b) (envelope_of-IsWire c b machine)) fits
    ∙ check_envelope-envelope_of c b d g h k

from_wire-to_wire : (p : Option Priority) → Option.map from_wire (Option.map to_wire p) ≡ p
unfolding from_wire to_wire
from_wire-to_wire none = refl
from_wire-to_wire (some p0) = refl
from_wire-to_wire (some _) = refl

decode_boundary-item_wire :
    (key : ItemReadKey)
    → IsSoundBoundary (item_key key)
    → decode_boundary (item_wire key) ≡ ok (item_key key)
unfolding decode_boundary new_item_id
decode_boundary-item_wire key ((r, p), z) = ground (
  arith,
  new_requester_canonical key.id.requester r,
  new_project_canonical key.id.project p,
  from_wire-to_wire key.priority,
)

decode_boundary-history_wire :
    (key : HistoryReadKey)
    → IsSoundBoundary (history_key key)
    → decode_boundary (history_wire key) ≡ ok (history_key key)
unfolding decode_boundary new_revision
decode_boundary-history_wire key z = ground arith

item_kind : (c : CursorContext) → require_item_kind c ≡ ok tt → c.kind ≢ history_kind
unfolding require_item_kind
item_kind c h = ground arith

history_only : (c : CursorContext) → require_history_kind c ≡ ok tt → c.kind ≡ history_kind
unfolding require_history_kind
history_only c h = ground arith

fits_item :
    (kind : CursorKind) (key : ItemReadKey)
    → kind ≢ history_kind
    → kind_fits kind (item_key key) ≡ true
fits_item list_kind key h = refl
fits_item next_kind key h = refl
fits_item history_kind key h = absurd (h refl)

-- The token that a list or queue makes for the key of an item, wherever it makes one, is read back
-- under the same context as that key, if serde_json reads the JSON value of the envelope from the bytes
-- that it writes for it, the key is canonical, its sequence fits 64 bits and the generation is well
-- formed. How the envelope, its kind, its boundary and its priority become that value, and are read
-- from it, is part of the statement.
pub decode_item_key-encode_item_key :
    (json : Json) (c : CursorContext) (key : ItemReadKey) (token : Text)
    → IsReadBack json (to_value (envelope_of c (item_wire key)))
    → key.id.sequence < 2 ^ 64
    → parse_generation c.generation ≡ ok c.generation
    → IsSoundBoundary (item_key key)
    → encode_item_key json c key ≡ ok token
    → decode_item_key json c token ≡ ok key
unfolding decode_item_key encode_item_key
decode_item_key-encode_item_key json c key token r n g sound h =
    let (_, kind, rest) = >>=-eq-ok (map_err invalid_context (require_item_kind c)) _ h in
    let allowed = map_err-ok invalid_context (require_item_kind c) tt kind in
    let other = item_kind c allowed in
    let parsed =
      parse-encode json c (item_wire key) (item_key key) token r n g
        (decode_boundary-item_wire key sound) (fits_item c.kind key other) rest in
    let bound = (bind_iff c _ (item_key key)).1 ((refl, refl, refl, refl), refl) in
    rw (allowed, parsed, bound) refl

-- The token that a history makes for the key of an event is read back in the same way.
pub decode_history_key-encode_history_key :
    (json : Json) (c : CursorContext) (key : HistoryReadKey) (token : Text)
    → IsReadBack json (to_value (envelope_of c (history_wire key)))
    → key.item_revision < 2 ^ 64
    → key.event_index < 2 ^ 64
    → parse_generation c.generation ≡ ok c.generation
    → IsSoundBoundary (history_key key)
    → encode_history_key json c key ≡ ok token
    → decode_history_key json c token ≡ ok key
unfolding decode_history_key encode_history_key
decode_history_key-encode_history_key json c key token r n m g sound h =
    let (_, kind, rest) = >>=-eq-ok (map_err invalid_context (require_history_kind c)) _ h in
    let allowed = map_err-ok invalid_context (require_history_kind c) tt kind in
    let only = history_only c allowed in
    let parsed =
      parse-encode json c (history_wire key) (history_key key) token r (n, m) g
        (decode_boundary-history_wire key sound) (rw only refl) rest in
    let bound = (bind_iff c _ (history_key key)).1 ((refl, refl, refl, refl), refl) in
    rw (allowed, parsed, bound) refl
