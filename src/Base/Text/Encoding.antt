-- ===== src/Base/Text/Encoding.antt =====
-- UTF-8 and the framing of texts in canonical byte strings can be read back.
use bif.Base.{ℕ, ◌≡◌, refl, sym, List, [], ◌∷◌, ◌++◌, length, arith}
use bif.Base.Text.{Text, Bytes, IsText, encode_char, encode_char-injective, utf8}

-- two splits of one list at the same length are the same split
pub append-injective {ℓ} :
    {A : Type ℓ} (xs ys r s : List A)
    → length xs ≡ length ys
    → xs ++ r ≡ ys ++ s
    → (xs ≡ ys) × (r ≡ s)
append-injective [] [] r s e h = (refl, h)
append-injective [] (y ∷ ys) r s e h = absurd (omega arith)
append-injective (x ∷ xs) [] r s e h = absurd (omega arith)
append-injective (x ∷ xs) (y ∷ ys) r s e h = ground (arith, append-injective xs ys r s)

encode_char-ne-nil : (c : ℕ) (r : Bytes) → encode_char c ++ r ≡ [] → ⊥
unfolding encode_char
encode_char-ne-nil c r h = ground arith

-- A text is determined by its UTF-8 bytes.
pub utf8-injective : (s t : Text) → IsText s → IsText t → utf8 s ≡ utf8 t → s ≡ t
unfolding utf8
utf8-injective [] [] hs ht h = refl
utf8-injective [] (d ∷ t) hs ht h = absurd (encode_char-ne-nil d (utf8 t) (sym h))
utf8-injective (c ∷ s) [] hs ht h = absurd (encode_char-ne-nil c (utf8 s) h)
utf8-injective (c ∷ s) (d ∷ t) hs ht h =
    let (e, rest) = encode_char-injective c d (utf8 s) (utf8 t) hs.0 ht.0 h in
    λ i. e i ∷ utf8-injective s t hs.1 ht.1 rest i
