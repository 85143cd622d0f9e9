-- ===== src/Application/Cursors.antt =====
-- src/application/cursors.rs: the tokens that continue a paged read, as data. serde_json is a
-- parameter: the chunks that it writes for a JSON value, and the value that it reads from bytes, if
-- they hold one. What an envelope is in JSON is `Wire`.
pub mod Wire
pub mod Parse
pub mod Context
pub mod Encode
pub mod Binding
pub mod RoundTrip
use bif.Base.{
  ℕ, ◌+◌, ◌-◌, ◌*◌, ◌/◌, ◌%◌, ◌^◌, ◌≡◌, refl, Bool, true, false, not, ◌&&◌, ◌||◌, List, [], ◌∷◌,
  ◌++◌, Option, none, some, Result, ok, err, ◌>>=◌, ◌>>◌, map_err, ok_or, Stopped, if◌then◌else◌,
  ◌==◌, Eq, list_eq, nat_eq, ltb, leb, length,
}
use mathlib.Core.Option
use bif.Base.Text.{Text, Bytes, codes, utf8}
use bif.Base.Text.Strings.{strip_prefix}
use bif.Base.Text.Hex.{hex, unhex}
use bif.Domain.Identifier.{RequesterId, new_requester, new_project}
use bif.Domain.Item.{ItemId, new_item_id, new_revision, Priority}
use bif.Domain.Item as I
use bif.Domain.View.{view_eq}
use bif.Domain.View as V
use bif.Application.Payload.{append_field, be_bytes}
use bif.Application.Sha256.{sha256}
use bif.Application.Fingerprint.{
  ItemReadOperation, list_operation, next_operation, ItemQueryFingerprintInput, be_bytes_u32,
  canonical_bytes,
}
use bif.Application.Listing.{ItemListOrdering, newest_first, next}
use bif.Application.ReadSemantics.{
  ItemReadKey, EffectiveItemFilters, InvalidProjectionFilters, new_filters,
}
use bif.Application.Projections.{ItemProjectionPageRequest}
use bif.Application.History.{HistoryReadKey, HistoryPageRequest}
use bif.Storage.Journal.{parse_generation}

abbrev pub max_cursor_bytes : ℕ
max_cursor_bytes = 1048576

-- `PREFIX`
abbrev pub prefix : Text
prefix = codes "bifc1."

-- `MAX_ENVELOPE_BYTES`
abbrev pub max_envelope_bytes : ℕ
max_envelope_bytes = (max_cursor_bytes - 6) / 2

pub data InvalidCursorReason : Type 0 where
  malformed oversized wrong_kind wrong_store generation_missing : InvalidCursorReason
  wrong_generation wrong_query unsupported_version : InvalidCursorReason

-- `InvalidCursorReason::as_str`
unfoldable pub reason : InvalidCursorReason → Text
reason malformed = codes "malformed"
reason oversized = codes "oversized"
reason wrong_kind = codes "wrong_kind"
reason wrong_store = codes "wrong_store"
reason generation_missing = codes "generation_missing"
reason wrong_generation = codes "wrong_generation"
reason wrong_query = codes "wrong_query"
reason unsupported_version = codes "unsupported_version"

-- `InvalidCursor(InvalidCursorReason)`
abbrev pub InvalidCursor : Type 0
InvalidCursor = InvalidCursorReason

pub data CursorKind : Type 0 where
  list_kind next_kind history_kind : CursorKind

unfoldable pub CursorKind-discrete : Discrete CursorKind
CursorKind-discrete = hlevel

instance abbrev pub kind_eq : Eq CursorKind
kind_eq = record { dec = CursorKind-discrete }

pub data WirePriority : Type 0 where
  p0 p1 p2 p3 p4 : WirePriority

-- `impl From<Priority> for WirePriority`
unfoldable pub to_wire : Priority → WirePriority
to_wire I.p0 = p0
to_wire I.p1 = p1
to_wire I.p2 = p2
to_wire I.p3 = p3
to_wire I.p4 = p4

-- `impl From<WirePriority> for Priority`
unfoldable pub from_wire : WirePriority → Priority
from_wire p0 = I.p0
from_wire p1 = I.p1
from_wire p2 = I.p2
from_wire p3 = I.p3
from_wire p4 = I.p4

pub record ItemBoundary : Type 0 where
  pub requester : Text
  pub project : Text
  pub sequence : ℕ
  pub captured_at : Text
  pub priority : Option WirePriority

pub record HistoryBoundary : Type 0 where
  pub item_revision : ℕ
  pub event_index : ℕ

pub data Boundary : Type 0 where
  item_boundary : ItemBoundary → Boundary
  history_boundary : HistoryBoundary → Boundary

pub record Envelope : Type 0 where
  pub cursor_version : ℕ
  pub kind : CursorKind
  pub store_id : Text
  pub generation : Option Text
  pub query_fingerprint : Text
  pub order_version : ℕ
  pub projection_schema_version : ℕ
  pub boundary : Boundary

-- JSON; a number that is no natural one has no use here, nor what an array holds
mutual
  pub data Value : Type 0 where
    null array other_number : Value
    boolean : Bool → Value
    number : ℕ → Value
    string : Text → Value
    object : Members → Value

  pub data Members : Type 0 where
    end : Members
    member : Text → Value → Members → Members

-- `serde_json::to_writer`, by the chunks that it writes, and the reading of `serde_json::from_slice`,
-- before the types and attributes of what is read
pub record Json : Type 0 where
  pub to_chunks : Value → List Bytes
  pub from_slice : Bytes → Option Value

pub data DecodedBoundary : Type 0 where
  item_key : ItemReadKey → DecodedBoundary
  history_key : HistoryReadKey → DecodedBoundary

pub record DecodedCursor : Type 0 where
  pub kind : CursorKind
  pub store_id : Text
  pub generation : Text
  pub query_fingerprint : Text
  pub boundary : DecodedBoundary
