-- ===== src/Tests/CursorTests.antt =====
-- src/application/cursors.rs: a token of the queue and what is read from it.
use bif.Base.{
  ◌≡◌, ◌≢◌, ◌↔◌, ◌≤◌, refl, true, [], ◌∷◌, none, some, if◌then◌else◌, ◌==◌, ok, err, arith, list_eq,
  nat_eq, List-discrete, ℕ_discrete, length,
}
use bif.Base.Text.{Text, codes, utf8, encode_char}
use bif.Base.Text.Strings.{strip_prefix}
use bif.Base.Text.Hex.{hex, unhex}
use bif.Samples.{item_id, generation}
use bif.Domain.Identifier.{
  normalize_identifier, normalize_loop, fold_case, new_requester, new_project,
}
use bif.Domain.Item.{p1, new_item_id}
use bif.Application.ReadSemantics.{ItemReadKey}
use bif.Application.History.{HistoryReadKey}
use bif.Application.Cursors.{
  Json, Value, DecodedCursor, item_key, history_key, next_kind, history_kind, kind_eq,
  CursorKind-discrete, to_wire, from_wire, max_cursor_bytes, wrong_generation,
}
use bif.Application.Cursors.Wire.{to_value, read_envelope}
use bif.Application.Cursors.Parse.{parse, check_envelope, decode_boundary, kind_fits, require_kind}
use bif.Application.Cursors.Context.{
  CursorContext, bind, bind_item_key, bind_history_key, decode_item_key, require_item_kind,
}
use bif.Application.Cursors.Encode.{
  envelope_of, item_wire, encode_item_key, encode, write, write_all,
}
use bif.Application.Cursors.Binding.{IsBound, IsSoundBoundary, bind_key_iff, parse_sound}
use bif.Application.Cursors.RoundTrip.{IsReadBack, decode_item_key-encode_item_key}
use bif.Storage.Journal.{parse_generation}

abbrev queue : CursorContext
queue = record {
  kind = next_kind;
  store_id = codes "store";
  generation = generation;
  query_fingerprint = codes "abc";
}

abbrev key : ItemReadKey
key = record { id = item_id; captured_at = codes "2026-01-01T00:00:00Z"; priority = some p1 }

abbrev written : Value
written = to_value (envelope_of queue (item_wire key))

-- serde_json on one value, which it writes as `{}`
abbrev json : Json
json = record {
  to_chunks = λ v. codes "{" ∷ codes "}" ∷ [];
  from_slice = λ bytes. if bytes == codes "{}" then some written else none;
}

abbrev token : Text
token = codes "bifc1.7b7d"

abbrev cursor : DecodedCursor
cursor = record {
  kind = next_kind;
  store_id = codes "store";
  generation = generation;
  query_fingerprint = codes "abc";
  boundary = item_key key;
}

encoded : encode_item_key json queue key ≡ ok token
unfolding encode_item_key encode to_value write write_all hex require_item_kind to_wire
    CursorKind-discrete
encoded = refl

json-IsReadBack : IsReadBack json written
unfolding ℕ_discrete List-discrete
json-IsReadBack = record { bytes = ground arith; nonempty = λ e. cc; read = refl }

decode_item_key-encode_item_key_example : decode_item_key json queue token ≡ ok key
unfolding parse_generation ℕ_discrete
decode_item_key-encode_item_key_example =
    decode_item_key-encode_item_key json queue key token json-IsReadBack (omega arith) refl
      ((refl, refl), ground arith) encoded

parsed : parse json token ≡ ok cursor
unfolding parse read_envelope to_value check_envelope decode_boundary strip_prefix unhex
    parse_generation new_requester new_project new_item_id normalize_identifier normalize_loop
    fold_case from_wire to_wire ℕ_discrete List-discrete utf8 encode_char
parsed = refl

parse_sound_example :
    (length (utf8 token) ≤ max_cursor_bytes)
    × (parse_generation generation ≡ ok generation)
    × (kind_fits next_kind (item_key key) ≡ true)
    × IsSoundBoundary (item_key key)
parse_sound_example = parse_sound json token cursor parsed

bind_key_iff_example :
    ((k : ItemReadKey)
      → (bind_item_key queue cursor ≡ ok k)
        ↔ ((next_kind ≢ history_kind) × IsBound queue cursor × (item_key key ≡ item_key k)))
    × ((k : HistoryReadKey)
        → (bind_history_key queue cursor ≡ ok k)
          ↔ ((next_kind ≡ history_kind) × IsBound queue cursor × (item_key key ≡ history_key k)))
bind_key_iff_example = bind_key_iff queue cursor

-- a cursor of the store before it was restored
restored_refused : bind queue (record cursor { generation = codes "0" }) ≡ err wrong_generation
unfolding bind require_kind List-discrete ℕ_discrete CursorKind-discrete
restored_refused = refl
