-- ===== src/Application/Cursors/Wire/Laws.antt =====
-- src/application/cursors.rs: an envelope is read from the JSON value that it is written as.
use bif.Base.{
  ℕ, ◌^◌, ◌<◌, ◌≡◌, refl, Option, none, some, arith, list_eq, nat_eq, ℕ_discrete, List-discrete,
}
use mathlib.Core.Option
use bif.Base.Text.{Text}
use bif.Application.Cursors.{
  CursorKind, list_kind, next_kind, history_kind, WirePriority, p0, p1, p2, p3, p4, ItemBoundary,
  HistoryBoundary, Boundary, item_boundary, history_boundary, Envelope, number, string,
}
use bif.Application.Cursors.Wire.{
  read_kind, kind_text, read_priority, priority_name, write_nullable, nullable, string_of,
  number_below, item_value, read_item_boundary, history_value, read_history_boundary,
  boundary_value, read_boundary, to_value, read_envelope,
}

-- the machine integers of a boundary and of an envelope
abbrev pub Fits : Boundary → Type 0
Fits (item_boundary b) = b.sequence < 2 ^ 64
Fits (history_boundary b) = (b.item_revision < 2 ^ 64) × (b.event_index < 2 ^ 64)

pub record IsWire (e : Envelope) : Type 0 where
  pub cursor_version : e.cursor_version < 2 ^ 32
  pub order_version : e.order_version < 2 ^ 32
  pub projection_schema_version : e.projection_schema_version < 2 ^ 32
  pub boundary : Fits e.boundary

read_kind-kind_text : (k : CursorKind) → read_kind (string (kind_text k)) ≡ some k
unfolding read_kind ℕ_discrete List-discrete
read_kind-kind_text list_kind = refl
read_kind-kind_text next_kind = refl
read_kind-kind_text history_kind = refl

read_priority-priority_name :
    (p : Option WirePriority)
    → nullable read_priority (write_nullable (Option.map priority_name p)) ≡ some p
unfolding read_priority ℕ_discrete List-discrete
read_priority-priority_name none = refl
read_priority-priority_name (some p0) = refl
read_priority-priority_name (some p1) = refl
read_priority-priority_name (some p2) = refl
read_priority-priority_name (some p3) = refl
read_priority-priority_name (some p4) = refl

read_nullable : (t : Option Text) → nullable string_of (write_nullable t) ≡ some t
read_nullable none = refl
read_nullable (some t) = refl

number_lt : (bound n : ℕ) → n < bound → number_below bound (number n) ≡ some n
number_lt bound n h = ground arith

read_item_boundary-item_value :
    (b : ItemBoundary) → b.sequence < 2 ^ 64 → read_item_boundary (item_value b) ≡ some b
unfolding read_item_boundary ℕ_discrete List-discrete
read_item_boundary-item_value b h =
    ground (arith, number_lt (2 ^ 64) b.sequence h, read_priority-priority_name b.priority)

read_history_boundary-history_value :
    (b : HistoryBoundary)
    → b.item_revision < 2 ^ 64
    → b.event_index < 2 ^ 64
    → read_history_boundary (history_value b) ≡ some b
unfolding read_history_boundary ℕ_discrete List-discrete
read_history_boundary-history_value b h k =
    ground (arith, number_lt (2 ^ 64) b.item_revision h, number_lt (2 ^ 64) b.event_index k)

read_boundary-boundary_value : (b : Boundary) → Fits b → read_boundary (boundary_value b) ≡ some b
unfolding read_boundary ℕ_discrete List-discrete
read_boundary-boundary_value (item_boundary b) h = rw (read_item_boundary-item_value b h) refl
read_boundary-boundary_value (history_boundary b) h =
    rw (read_history_boundary-history_value b h.0 h.1) refl

pub read_envelope-to_value : (e : Envelope) → IsWire e → read_envelope (to_value e) ≡ some e
unfolding read_envelope to_value ℕ_discrete List-discrete
read_envelope-to_value e h = ground (
  arith,
  number_lt (2 ^ 32) e.cursor_version h.cursor_version,
  number_lt (2 ^ 32) e.order_version h.order_version,
  number_lt (2 ^ 32) e.projection_schema_version h.projection_schema_version,
  read_kind-kind_text e.kind,
  read_nullable e.generation,
  read_boundary-boundary_value e.boundary h.boundary,
)
