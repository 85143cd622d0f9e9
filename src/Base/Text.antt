-- ===== src/Base/Text.antt =====
-- Rust's `str` as the list of its Unicode scalar values, with the character classes and the UTF-8
-- encoding that the code uses.
pub mod Encoding
pub mod Strings
pub mod Hex
use Prim.Native.Char.{code}
use Prim.Native.String.{String}
use bif.Base.{
  ℕ, ◌+◌, ◌-◌, ◌*◌, ◌/◌, ◌%◌, ◌<◌, Bool, not, ◌&&◌, ◌||◌, List, [], ◌∷◌, ◌++◌, ltb, leb, ◌==◌,
  nat_eq, false, ◌≡◌, refl, arith, All, if◌then◌else◌,
}

abbrev pub Text : Type 0
Text = List ℕ

abbrev pub codes : String → Text
codes String.[] = []
codes (String.◌∷◌ c s) = code c ∷ codes s

-- `char::is_ascii_digit`, `is_ascii_uppercase`, `is_ascii_lowercase`, `is_ascii_alphanumeric`
abbrev pub is_digit : ℕ → Bool
is_digit c = leb b'0' c && leb c b'9'

abbrev pub is_upper : ℕ → Bool
is_upper c = leb b'A' c && leb c b'Z'

abbrev pub is_lower : ℕ → Bool
is_lower c = leb b'a' c && leb c b'z'

abbrev pub is_alphanumeric : ℕ → Bool
is_alphanumeric c = is_digit c || (is_upper c || is_lower c)

unfoldable pub to_upper : ℕ → ℕ
to_upper c = if is_lower c then c - 32 else c

unfoldable pub to_lower : ℕ → ℕ
to_lower c = if is_upper c then c + 32 else c

-- `char::is_whitespace`: the Unicode property White_Space
unfoldable pub is_whitespace : ℕ → Bool
is_whitespace c =
    (leb 0x9 c && leb c 0xd)
    || (c == 0x20
        || (c == 0x85
            || (c == 0xa0
                || (c == 0x1680
                    || ((leb 0x2000 c && leb c 0x200a)
                        || (c == 0x2028
                            || (c == 0x2029 || (c == 0x202f || (c == 0x205f || c == 0x3000)))))))))

-- `!text.trim().is_empty()`, which is `text.chars().any(|c| !c.is_whitespace())`
unfoldable pub has_text : Text → Bool
unfolding is_whitespace
has_text [] = false
has_text (c ∷ s) = not (is_whitespace c) || has_text s

abbrev pub is_blank : Text → Bool
is_blank s = not (has_text s)

abbrev pub Bytes : Type 0
Bytes = List ℕ

-- the UTF-8 bytes of one scalar value
unfoldable pub encode_char : ℕ → Bytes
encode_char c =
    if ltb c 0x80
    then c ∷ []
    else if ltb c 0x800
    then (0xc0 + c / 64) ∷ (0x80 + c % 64) ∷ []
    else if ltb c 0x10000
    then (0xe0 + c / 4096) ∷ (0x80 + c / 64 % 64) ∷ (0x80 + c % 64) ∷ []
    else (0xf0 + c / 262144) ∷ (0x80 + c / 4096 % 64) ∷ (0x80 + c / 64 % 64) ∷ (0x80 + c % 64) ∷ []

-- `str::as_bytes`
unfoldable pub utf8 : Text → Bytes
utf8 [] = []
utf8 (c ∷ s) = encode_char c ++ utf8 s

-- every element is a Unicode scalar value
abbrev pub IsText : Text → Type 0
IsText = All (λ c. c < 0x110000)

pub encode_char-injective :
    (c d : ℕ) (r s : Bytes)
    → c < 0x110000
    → d < 0x110000
    → encode_char c ++ r ≡ encode_char d ++ s
    → (c ≡ d) × (r ≡ s)
unfolding encode_char
encode_char-injective c d r s hc hd h = ground arith
