-- ===== src/Application/Cursors/Binding.antt =====
-- src/application/cursors.rs: which cursors are taken.
use bif.Base.{
  ℕ, ◌≤◌, ◌≡◌, ◌≢◌, ◌↔◌, refl, sym, ap, ◌∙◌, Bool, true, false, not, ◌||◌, subst, ltb, map_err,
  ok_or, Option, none, some, Result, ok, err, if◌then◌else◌, ◌==◌, list_eq, nat_eq, length, arith,
  >>=-eq-ok,
}
use bif.Base.Text.{Text, utf8}
use bif.Domain.Identifier.{lower, new_requester, new_project, RequesterId, ProjectId}
use bif.Base.Text.Strings.{strip_prefix}
use bif.Base.Text.Hex.{unhex}
use bif.Domain.Identifier.Canonical.{
  IsCanonical, normalize_identifier-IsCanonical, new_requester-IsCanonical,
}
use bif.Domain.Item.{ItemId, new_item_id, new_revision}
use bif.Domain.Item.Display.{IsCanonicalId}
use bif.Application.ReadSemantics.{ItemReadKey}
use bif.Application.History.{HistoryReadKey}
use bif.Application.Cursors.{
  max_cursor_bytes, Json, Envelope, Boundary, item_boundary, history_boundary, DecodedCursor,
  DecodedBoundary, item_key, history_key, history_kind, kind_eq, prefix,
}
use bif.Application.Cursors.Wire.{read_envelope}
use bif.Application.Cursors.Parse.{
  parse, check_envelope, decode_boundary, kind_fits, is_supported, require_kind, as_malformed,
  is_pairs,
}
use bif.Application.Cursors.Context.{CursorContext, bind, bind_item_key, bind_history_key}
use bif.Storage.Journal.{parse_generation}

-- the operation, the store, its generation and the query of a cursor are those of the request
abbrev pub IsBound : CursorContext → DecodedCursor → Type 0
IsBound c cursor =
    (cursor.kind ≡ c.kind)
    × (cursor.store_id ≡ c.store_id)
    × (cursor.generation ≡ c.generation)
    × (cursor.query_fingerprint ≡ c.query_fingerprint)

pub bind_iff :
    (c : CursorContext) (cursor : DecodedCursor) (b : DecodedBoundary)
    → (bind c cursor ≡ ok b) ↔ (IsBound c cursor × (cursor.boundary ≡ b))
unfolding bind require_kind
bind_iff c cursor b = (λ h. ground arith, λ h. ground arith)

bind_item_key_iff :
    (c : CursorContext) (cursor : DecodedCursor) (key : ItemReadKey)
    → (bind_item_key c cursor ≡ ok key)
      ↔ ((c.kind ≢ history_kind) × IsBound c cursor × (cursor.boundary ≡ item_key key))
unfolding bind_item_key
bind_item_key_iff c cursor key = (λ h. ground arith, λ h. ground arith)

bind_history_key_iff :
    (c : CursorContext) (cursor : DecodedCursor) (key : HistoryReadKey)
    → (bind_history_key c cursor ≡ ok key)
      ↔ ((c.kind ≡ history_kind) × IsBound c cursor × (cursor.boundary ≡ history_key key))
unfolding bind_history_key
bind_history_key_iff c cursor key = (λ h. ground arith, λ h. ground arith)

-- A cursor is taken exactly if its operation, its store, the store's generation and its query are
-- those of the request, and then gives its own key: of an item, for a list or a queue, and of an
-- event, for a history.
pub bind_key_iff :
    (c : CursorContext) (cursor : DecodedCursor)
    → ((key : ItemReadKey)
        → (bind_item_key c cursor ≡ ok key)
          ↔ ((c.kind ≢ history_kind) × IsBound c cursor × (cursor.boundary ≡ item_key key)))
      × ((key : HistoryReadKey)
          → (bind_history_key c cursor ≡ ok key)
            ↔ ((c.kind ≡ history_kind) × IsBound c cursor × (cursor.boundary ≡ history_key key)))
bind_key_iff c cursor = (bind_item_key_iff c cursor, bind_history_key_iff c cursor)

-- a key as the domain's constructors make it
abbrev pub IsSoundBoundary : DecodedBoundary → Type 0
IsSoundBoundary (item_key k) = IsCanonicalId k.id × (k.id.sequence ≢ 0)
IsSoundBoundary (history_key k) = k.item_revision ≢ 0

module _ {A : Type 0} where
  pub guard-ok :
      {E : Type 0} (b : Bool) (e : E) (m : Result A E) (x : A)
      → (if b then err e else m) ≡ ok x
      → (b ≡ false) × (m ≡ ok x)
  guard-ok true e m x h = cc
  guard-ok false e m x h = (refl, h)

  pub map_err-ok :
      {E F : Type 0} (f : E → F) (m : Result A E) (x : A) → map_err f m ≡ ok x → m ≡ ok x
  map_err-ok f (err e) x h = cc
  map_err-ok f (ok y) x h = ground arith

  ok_or-ok : {E : Type 0} (e : E) (o : Option A) (x : A) → ok_or e o ≡ ok x → o ≡ some x
  ok_or-ok e none x h = cc
  ok_or-ok e (some y) x h = ground arith

pub ok-injective : {A E : Type 0} {a b : A} → ◌≡◌ {A = Result A E} (ok a) (ok b) → a ≡ b
ok-injective h = cc

pub not_over : (m n : ℕ) → ltb m n ≡ false → n ≤ m
not_over m n h = ground arith

not-false : {b : Bool} → not b ≡ false → b ≡ true
not-false {b} h = ground arith

new_revision-ok : (n m : ℕ) → new_revision n ≡ ok m → m ≢ 0
unfolding new_revision
new_revision-ok n m h = ground arith

new_project-IsCanonical :
    (input : Text) {p : ProjectId} → new_project input ≡ ok p → IsCanonical lower p.as_str
unfolding new_project
new_project-IsCanonical input {p} h =
    normalize_identifier-IsCanonical input lower {s = p.as_str} (ground arith)

parse_generation-ok :
    (value out : Text) → parse_generation value ≡ ok out → parse_generation value ≡ ok value
unfolding parse_generation
parse_generation-ok value out h = ground arith

new_item_id-ok :
    (r : RequesterId) (p : ProjectId) (n : ℕ) (id : ItemId)
    → new_item_id r p n ≡ ok id
    → (id ≡ record { requester = r; project = p; sequence = n }) × (n ≢ 0)
unfolding new_item_id
new_item_id-ok r p n id h = (ground arith, ground arith)

decode_boundary_sound :
    (b : Boundary) (d : DecodedBoundary) → decode_boundary b ≡ ok d → IsSoundBoundary d
unfolding decode_boundary
decode_boundary_sound (item_boundary k) d h =
    let (r, made_r, rest) = >>=-eq-ok (as_malformed (new_requester k.requester)) _ h in
    let (p, made_p, rest) = >>=-eq-ok (as_malformed (new_project k.project)) _ rest in
    let (_, rest) =
      guard-ok (not (r.as_str == k.requester) || not (p.as_str == k.project)) _ _ d rest in
    let (id, made, same) = >>=-eq-ok (as_malformed (new_item_id r p k.sequence)) _ rest in
    let (is, positive) = new_item_id-ok r p k.sequence id (map_err-ok _ _ id made) in
    subst IsSoundBoundary (ok-injective same) (
      subst IsCanonicalId (sym is) (
        new_requester-IsCanonical k.requester (map_err-ok _ _ r made_r),
        new_project-IsCanonical k.project (map_err-ok _ _ p made_p),
      ),
      λ z. positive (ap (λ (i : ItemId). i.sequence) (sym is) ∙ z),
    )
decode_boundary_sound (history_boundary k) d h =
    let (n, made, same) = >>=-eq-ok (as_malformed (new_revision k.item_revision)) _ h in
    subst IsSoundBoundary (ok-injective same)
      (new_revision-ok k.item_revision n (map_err-ok _ _ n made))

check_envelope-ok :
    (e : Envelope) (cursor : DecodedCursor)
    → check_envelope e ≡ ok cursor
    → (parse_generation cursor.generation ≡ ok cursor.generation)
      × (kind_fits cursor.kind cursor.boundary ≡ true)
      × IsSoundBoundary cursor.boundary
unfolding check_envelope
check_envelope-ok e cursor h =
    let (_, rest) = guard-ok (not (is_supported e)) _ _ cursor h in
    let (generation, _, rest) = >>=-eq-ok (ok_or _ e.generation) _ rest in
    let (same_text, valid, rest) = >>=-eq-ok (as_malformed (parse_generation generation)) _ rest in
    let (boundary, decoded, rest) = >>=-eq-ok (decode_boundary e.boundary) _ rest in
    let (fits, same) = guard-ok (not (kind_fits e.kind boundary)) _ _ cursor rest in
    let sound = decode_boundary_sound e.boundary boundary decoded in
    subst
      (λ (x : DecodedCursor).
        (parse_generation x.generation ≡ ok x.generation)
        × (kind_fits x.kind x.boundary ≡ true)
        × IsSoundBoundary x.boundary)
      (ok-injective same)
      (
        parse_generation-ok generation same_text (map_err-ok _ _ same_text valid),
        not-false fits,
        sound,
      )

-- Whatever a token is, a cursor that is read from it is within the size limit, names a well-formed
-- generation, has a key of its operation's kind, and that key is one that the domain makes: canonical
-- identifiers and a sequence above 0, or a revision above 0.
pub parse_sound :
    (json : Json) (token : Text) (cursor : DecodedCursor)
    → parse json token ≡ ok cursor
    → (length (utf8 token) ≤ max_cursor_bytes)
      × (parse_generation cursor.generation ≡ ok cursor.generation)
      × (kind_fits cursor.kind cursor.boundary ≡ true)
      × IsSoundBoundary cursor.boundary
unfolding parse
parse_sound json token cursor h =
    let (small, rest) = guard-ok (ltb max_cursor_bytes (length (utf8 token))) _ _ cursor h in
    let (digits, _, rest) = >>=-eq-ok (ok_or _ (strip_prefix prefix (utf8 token))) _ rest in
    let (_, rest) = guard-ok (not (is_pairs digits)) _ _ cursor rest in
    let (bytes, _, rest) = >>=-eq-ok (ok_or _ (unhex digits)) _ rest in
    let (value, _, rest) = >>=-eq-ok (ok_or _ (json.from_slice bytes)) _ rest in
    let (envelope, _, checked) = >>=-eq-ok (ok_or _ (read_envelope value)) _ rest in
    let (valid, fits, sound) = check_envelope-ok envelope cursor checked in
    (not_over _ _ small, valid, fits, sound)
