-- ===== src/Base/Text/Hex.antt =====
-- Bytes as lower-case hexadecimal text, two digits to a byte.
use bif.Base.{
  ℕ, ◌+◌, ◌-◌, ◌*◌, ◌/◌, ◌%◌, ◌<◌, ◌≡◌, refl, ◌&&◌, [], ◌∷◌, Option, none, some, leb, ltb,
  if◌then◌else◌, length, All, arith,
}
use bif.Base.Text.{Bytes, encode_char, utf8}

abbrev pub digit_of : ℕ → ℕ
digit_of n = if ltb n 10 then b'0' + n else b'a' + (n - 10)

-- `HEX[byte >> 4]`, `HEX[byte & 15]`
unfoldable pub hex : Bytes → Bytes
hex [] = []
hex (byte ∷ bytes) = digit_of (byte / 16) ∷ digit_of (byte % 16) ∷ hex bytes

unfoldable pub hex_digit : ℕ → Option ℕ
hex_digit byte =
    if leb b'0' byte && leb byte b'9'
    then some (byte - b'0')
    else if leb b'a' byte && leb byte b'f'
    then some (byte - b'a' + 10)
    else none

-- one pair
abbrev byte_of : Option ℕ → Option ℕ → Option Bytes → Option Bytes
byte_of (some high) (some low) (some bytes) = some ((high * 16 + low) ∷ bytes)
byte_of _ _ _ = none

-- the loop over `chunks_exact(2)`
unfoldable pub unhex : Bytes → Option Bytes
unfolding hex_digit
unhex (high ∷ low ∷ rest) = byte_of (hex_digit high) (hex_digit low) (unhex rest)
unhex _ = some []

hex_digit-digit_of : (n : ℕ) → n < 16 → hex_digit (digit_of n) ≡ some n
unfolding hex_digit
hex_digit-digit_of n h = ground arith

-- What is written in hexadecimal is read back.
pub unhex-hex : (bytes : Bytes) → All (λ b. b < 256) bytes → unhex (hex bytes) ≡ some bytes
unfolding unhex hex
unhex-hex [] h = refl
unhex-hex (b ∷ bytes) (lt, h) = ground (
  arith,
  hex_digit-digit_of (b / 16) (omega arith),
  hex_digit-digit_of (b % 16) (omega arith),
  unhex-hex bytes h,
)

pub length-hex : (bytes : Bytes) → length (hex bytes) ≡ 2 * length bytes
unfolding hex
length-hex [] = refl
length-hex (b ∷ bytes) = omega (arith, length-hex bytes)

abbrev pub IsAscii : Bytes → Type 0
IsAscii = All (λ c. c < 0x80)

pub hex-IsAscii : (bytes : Bytes) → All (λ b. b < 256) bytes → IsAscii (hex bytes)
unfolding hex
hex-IsAscii [] h = tt
hex-IsAscii (b ∷ bytes) (lt, h) = (ground arith, (ground arith, hex-IsAscii bytes h))

-- an ASCII text is its own encoding
pub utf8-IsAscii : (s : Bytes) → IsAscii s → utf8 s ≡ s
unfolding utf8 encode_char
utf8-IsAscii [] h = refl
utf8-IsAscii (c ∷ s) (lt, h) = ground (arith, utf8-IsAscii s h)
