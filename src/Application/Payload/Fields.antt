-- ===== src/Application/Payload/Fields.antt =====
-- Framed fields can be read back, one after the other.
use bif.Base.{
  ℕ, ◌+◌, ◌*◌, ◌^◌, ◌<◌, ◌≡◌, refl, ap, sym, ◌∙◌, List, [], ◌∷◌, ◌++◌, append_assoc, append-nil,
  Option, none, some, length, All, arith, map,
}
use bif.Base.Text.{Text, Bytes, IsText, utf8}
use bif.Base.Text.Encoding.{append-injective, utf8-injective}
use bif.Application.Payload.{be_bytes, append_field, append_texts}

read_be : Bytes → ℕ
read_be (a ∷ b ∷ c ∷ d ∷ e ∷ f ∷ g ∷ h ∷ r) =
    ((((((a * 256 + b) * 256 + c) * 256 + d) * 256 + e) * 256 + f) * 256 + g) * 256 + h
read_be _ = 0

read_be-be_bytes : (n : ℕ) (r : Bytes) → n < 2 ^ 64 → read_be (be_bytes n ++ r) ≡ n
unfolding be_bytes read_be
read_be-be_bytes n r h = omega arith

pub length-be_bytes : (n : ℕ) → length (be_bytes n) ≡ 8
unfolding be_bytes
length-be_bytes n = refl

-- Eight bytes hold every 64-bit number.
pub be_bytes-injective :
    (m n : ℕ) (r s : Bytes)
    → m < 2 ^ 64
    → n < 2 ^ 64
    → be_bytes m ++ r ≡ be_bytes n ++ s
    → (m ≡ n) × (r ≡ s)
be_bytes-injective m n r s hm hn h = (
  sym (read_be-be_bytes m r hm) ∙ ap read_be h ∙ read_be-be_bytes n s hn,
  (append-injective (be_bytes m) (be_bytes n) r s (length-be_bytes m ∙ sym (length-be_bytes n))
      h).1,
)

-- the bytes of one field
unfoldable pub field : Option Text → Bytes
field none = 0 ∷ []
field (some t) = 1 ∷ (be_bytes (length (utf8 t)) ++ utf8 t)

unfoldable pub fields : List (Option Text) → Bytes
fields [] = []
fields (v ∷ vs) = field v ++ fields vs

-- a text that fits in memory: its bytes are counted in 64 bits
abbrev pub IsField : Option Text → Type 0
IsField none = Unit
IsField (some t) = IsText t × (length (utf8 t) < 2 ^ 64)

pub append_field-field :
    (output : Bytes) (v : Option Text) → append_field output v ≡ output ++ field v
unfolding append_field field
append_field-field output none = refl
append_field-field output (some t) = simp append_assoc

pub append_texts-fields :
    (output : Bytes) (ts : List Text) → append_texts output ts ≡ output ++ fields (map some ts)
unfolding append_texts fields
append_texts-fields output [] = sym (append-nil output)
append_texts-fields output (t ∷ ts) =
    append_texts-fields (append_field output (some t)) ts
    ∙ ap (λ x. x ++ fields (map some ts)) (append_field-field output (some t))
    ∙ append_assoc output (field (some t)) (fields (map some ts))

tail_eq : (xs ys : Bytes) → ◌≡◌ {A = Bytes} (1 ∷ xs) (1 ∷ ys) → xs ≡ ys
tail_eq xs ys h = cc

pub field-injective :
    (v w : Option Text) (r s : Bytes)
    → IsField v
    → IsField w
    → field v ++ r ≡ field w ++ s
    → (v ≡ w) × (r ≡ s)
unfolding field
field-injective none none r s hv hw h = ground arith
field-injective none (some t) r s hv hw h = ground arith
field-injective (some t) none r s hv hw h = ground arith
field-injective (some t) (some u) r s hv hw h =
    let framed : be_bytes (length (utf8 t)) ++ (utf8 t ++ r)
        ≡ be_bytes (length (utf8 u)) ++ (utf8 u ++ s) =
      sym (append_assoc (be_bytes (length (utf8 t))) (utf8 t) r)
      ∙ tail_eq _ _ h
      ∙ append_assoc (be_bytes (length (utf8 u))) (utf8 u) s in
    let (n, body) = be_bytes-injective _ _ _ _ hv.1 hw.1 framed in
    let (bytes, rest) = append-injective (utf8 t) (utf8 u) r s n body in
    (ap some (utf8-injective t u hv.0 hw.0 bytes), rest)

fields-cons-ne-nil : (v : Option Text) (r : Bytes) → field v ++ r ≡ [] → ⊥
unfolding field
fields-cons-ne-nil none r h = cc
fields-cons-ne-nil (some t) r h = cc

-- A sequence of fields is determined by its bytes, however many fields it has.
pub fields-injective :
    (vs ws : List (Option Text)) → All IsField vs → All IsField ws → fields vs ≡ fields ws → vs ≡ ws
unfolding fields
fields-injective [] [] hv hw h = refl
fields-injective [] (w ∷ ws) hv hw h = absurd (fields-cons-ne-nil w (fields ws) (sym h))
fields-injective (v ∷ vs) [] hv hw h = absurd (fields-cons-ne-nil v (fields vs) h)
fields-injective (v ∷ vs) (w ∷ ws) hv hw h =
    let (e, rest) = field-injective v w (fields vs) (fields ws) hv.0 hw.0 h in
    λ i. e i ∷ fields-injective vs ws hv.1 hw.1 rest i
