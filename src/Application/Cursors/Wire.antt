-- ===== src/Application/Cursors/Wire.antt =====
-- src/application/cursors.rs: `Envelope` and its parts as JSON values: `Serialize` as serde derives it
-- from the attributes, `Deserialize` as it is derived or written by hand.
pub mod Laws
use bif.Base.{
  ℕ, ◌^◌, Bool, true, false, not, ◌&&◌, ◌||◌, List, [], ◌∷◌, Option, none, some, if◌then◌else◌,
  ◌==◌, list_eq, nat_eq, ltb, any,
}
use mathlib.Core.Option
use bif.Base.Text.{Text, codes}
use bif.Application.Cursors.{
  CursorKind, list_kind, next_kind, history_kind, WirePriority, p0, p1, p2, p3, p4, ItemBoundary,
  HistoryBoundary, Boundary, item_boundary, history_boundary, Envelope, Value, Members, null,
  number, string, object, end, member,
}

infixl 5 ◌>>=◌
abbrev ◌>>=◌ : {A B : Type 0} → Option A → (A → Option B) → Option B
none >>= f = none
some a >>= f = f a

-- `String`
abbrev pub string_of : Value → Option Text
string_of (string s) = some s
string_of _ = none

-- `u32` and `u64`, by the bound
abbrev pub number_below : ℕ → Value → Option ℕ
number_below bound (number n) = if ltb n bound then some n else none
number_below bound _ = none

-- `Option<T>`
abbrev pub nullable : {A : Type 0} → (Value → Option A) → Value → Option (Option A)
nullable read null = some none
nullable read v = Option.map some (read v)

abbrev pub occurs : Text → Members → Bool
occurs name end = false
occurs name (member key v rest) = key == name || occurs name rest

-- `deny_unknown_fields`, with the refusal of a name that comes twice
abbrev pub only : List Text → Members → Bool
only names end = true
only names (member key v rest) =
    any (λ name. name == key) names && (not (occurs key rest) && only names rest)

abbrev pub find_member : Text → Members → Option Value
find_member name end = none
find_member name (member key v rest) = if key == name then some v else find_member name rest

-- `object_only` and `ObjectOnly`, with the names that the struct has
abbrev pub object_only : List Text → Value → Option Members
object_only names (object fields) = if only names fields then some fields else none
object_only names _ = none

abbrev pub required : {A : Type 0} → (Value → Option A) → Text → Members → Option A
required read name fields = find_member name fields >>= read

-- a field of type `Option<T>` may be missing
abbrev pub optional : {A : Type 0} → (Value → Option A) → Text → Members → Option (Option A)
optional read name fields = elim (find_member name fields) [
  | none ↦ some none
  | some v ↦ nullable read v
]

abbrev pub kind_text : CursorKind → Text
kind_text list_kind = codes "list"
kind_text next_kind = codes "next"
kind_text history_kind = codes "history"

-- `impl Deserialize for CursorKind`
unfoldable pub read_kind : Value → Option CursorKind
read_kind v = do
  value ← string_of v
  if value == codes "list"
      then some list_kind
      else if value == codes "next"
      then some next_kind
      else if value == codes "history"
      then some history_kind
      else none

abbrev pub priority_name : WirePriority → Text
priority_name p0 = codes "P0"
priority_name p1 = codes "P1"
priority_name p2 = codes "P2"
priority_name p3 = codes "P3"
priority_name p4 = codes "P4"

-- `impl Deserialize for WirePriority`
unfoldable pub read_priority : Value → Option WirePriority
read_priority v = do
  value ← string_of v
  if value == codes "P0"
      then some p0
      else if value == codes "P1"
      then some p1
      else if value == codes "P2"
      then some p2
      else if value == codes "P3"
      then some p3
      else if value == codes "P4"
      then some p4
      else none

abbrev pub write_nullable : Option Text → Value
write_nullable none = null
write_nullable (some t) = string t

abbrev pub item_names : List Text
item_names =
    codes "requester"
    ∷ codes "project"
    ∷ codes "sequence"
    ∷ codes "captured_at"
    ∷ codes "priority"
    ∷ []

abbrev pub item_value : ItemBoundary → Value
item_value b = object (
    member (codes "requester") (string b.requester) (
      member (codes "project") (string b.project) (
        member (codes "sequence") (number b.sequence) (
          member (codes "captured_at") (string b.captured_at) (
            member (codes "priority") (write_nullable (Option.map priority_name b.priority))
              end)))))

-- the priority is read by `required_nullable`: it may be null, and not be missing
unfoldable pub read_item_boundary : Value → Option ItemBoundary
unfolding read_priority
read_item_boundary v = do
  fields ← object_only item_names v
  requester ← required string_of (codes "requester") fields
  project ← required string_of (codes "project") fields
  sequence ← required (number_below (2 ^ 64)) (codes "sequence") fields
  captured_at ← required string_of (codes "captured_at") fields
  priority ← required (nullable read_priority) (codes "priority") fields
  some (record {
    requester = requester;
    project = project;
    sequence = sequence;
    captured_at = captured_at;
    priority = priority;
  })

abbrev pub history_value : HistoryBoundary → Value
history_value b = object (
    member (codes "item_revision") (number b.item_revision)
      (member (codes "event_index") (number b.event_index) end))

unfoldable pub read_history_boundary : Value → Option HistoryBoundary
read_history_boundary v = do
  fields ← object_only (codes "item_revision" ∷ codes "event_index" ∷ []) v
  item_revision ← required (number_below (2 ^ 64)) (codes "item_revision") fields
  event_index ← required (number_below (2 ^ 64)) (codes "event_index") fields
  some (record { item_revision = item_revision; event_index = event_index })

-- an enum is an object with the name of the variant for its only key
abbrev pub boundary_value : Boundary → Value
boundary_value (item_boundary b) = object (member (codes "item") (item_value b) end)
boundary_value (history_boundary b) = object (member (codes "history") (history_value b) end)

unfoldable pub read_boundary : Value → Option Boundary
unfolding read_item_boundary read_history_boundary
read_boundary (object (member key v end)) =
    if key == codes "item"
    then Option.map item_boundary (read_item_boundary v)
    else if key == codes "history"
    then Option.map history_boundary (read_history_boundary v)
    else none
read_boundary _ = none

unfoldable pub to_value : Envelope → Value
to_value e = object (
    member (codes "cursor_version") (number e.cursor_version) (
      member (codes "kind") (string (kind_text e.kind)) (
        member (codes "store_id") (string e.store_id) (
          member (codes "generation") (write_nullable e.generation) (
            member (codes "query_fingerprint") (string e.query_fingerprint) (
              member (codes "order_version") (number e.order_version) (
                member (codes "projection_schema_version") (number e.projection_schema_version)
                  (member (codes "boundary") (boundary_value e.boundary) end))))))))

abbrev pub envelope_names : List Text
envelope_names =
    codes "cursor_version"
    ∷ codes "kind"
    ∷ codes "store_id"
    ∷ codes "generation"
    ∷ codes "query_fingerprint"
    ∷ codes "order_version"
    ∷ codes "projection_schema_version"
    ∷ codes "boundary"
    ∷ []

unfoldable pub read_envelope : Value → Option Envelope
unfolding read_kind read_boundary
read_envelope v = do
  fields ← object_only envelope_names v
  cursor_version ← required (number_below (2 ^ 32)) (codes "cursor_version") fields
  kind ← required read_kind (codes "kind") fields
  store_id ← required string_of (codes "store_id") fields
  generation ← optional string_of (codes "generation") fields
  query_fingerprint ← required string_of (codes "query_fingerprint") fields
  order_version ← required (number_below (2 ^ 32)) (codes "order_version") fields
  projection_schema_version ←
      required (number_below (2 ^ 32)) (codes "projection_schema_version") fields
  boundary ← required read_boundary (codes "boundary") fields
  some (record {
    cursor_version = cursor_version;
    kind = kind;
    store_id = store_id;
    generation = generation;
    query_fingerprint = query_fingerprint;
    order_version = order_version;
    projection_schema_version = projection_schema_version;
    boundary = boundary;
  })
