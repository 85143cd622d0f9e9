-- ===== src/Application/Sha256/Padding.antt =====
-- The padding of `sha256`, its chunks and the form of its digest.
use bif.Base.{
  ℕ, zero, suc, ◌-◌, ◌*◌, ◌/◌, ◌%◌, ◌^◌, ◌<◌, ◌≤◌, ◌≡◌, refl, sym, ap, ◌∙◌, Bool-cases, inl, inr,
  ◌≢◌, append-nil, ℕ_discrete, Bool, true, ◌&&◌, ◌||◌, List, [], ◌∷◌, ◌++◌, append_assoc, length,
  length-append, nat_eq, ltb, leb, arith, All, All-append,
}
use bif.Base.Text.{Bytes}
use bif.Application.Payload.{be_bytes}
use bif.Application.Payload.Fields.{length-be_bytes}
use bif.Application.Sha256.{
  take, drop, pad_zeros, pad_input, chunks_exact, add_registers, digest_chunk, digest_chunks,
  hex_digit, hex_word, hex_words, initial, sha256,
}

abbrev pub zeros : ℕ → Bytes
zeros zero = []
zeros (suc k) = 0 ∷ zeros k

-- how far a length is from 56 modulo 64
abbrev pub gap : Bytes → ℕ
gap padded = (120 - length padded % 64) % 64

zeros_assoc : (k : ℕ) (p : Bytes) → (p ++ 0 ∷ []) ++ zeros k ≡ p ++ zeros (suc k)
zeros_assoc k p = append_assoc p (0 ∷ []) (zeros k)

gap-push : (p : Bytes) → length p % 64 ≢ 56 → gap p ≡ suc (gap (p ++ 0 ∷ []))
gap-push p h = let l = length-append p (0 ∷ []) in omega arith

gap_zero : (p : Bytes) → length p % 64 ≡ 56 → gap p ≡ 0
gap_zero p h = omega arith

-- enough fuel pads to the length that the loop waits for
pad_zeros_complete : (fuel : ℕ) (p : Bytes) → gap p ≤ fuel → pad_zeros fuel p ≡ p ++ zeros (gap p)
unfolding pad_zeros
pad_zeros_complete zero p h =
    let e : gap p ≡ 0 = omega arith in sym (append-nil p) ∙ ap (λ k. p ++ zeros k) (sym e)
pad_zeros_complete (suc fuel) p h = elim (ℕ_discrete (length p % 64) 56) [
  | yes e ↦
      let z = gap_zero p e in
      let stop = sym (append-nil p) ∙ ap (λ k. p ++ zeros k) (sym z) in ground arith
  | no n ↦
      let g = gap-push p n in
      let more = pad_zeros_complete fuel (p ++ 0 ∷ []) (omega arith) in
      let all = more ∙ zeros_assoc (gap (p ++ 0 ∷ [])) p ∙ ap (λ k. p ++ zeros k) (sym g) in
      ground arith
]

length-zeros : (k : ℕ) → length (zeros k) ≡ k
length-zeros zero = refl
length-zeros (suc k) = ap suc (length-zeros k)

length-take : (n : ℕ) (xs : Bytes) → n ≤ length xs → length (take n xs) ≡ n
length-take zero xs h = refl
length-take (suc n) [] h = absurd (omega arith)
length-take (suc n) (x ∷ xs) h = ap suc (length-take n xs (omega arith))

length-drop : (n : ℕ) (xs : Bytes) → length (drop n xs) ≡ length xs - n
length-drop zero xs = omega arith
length-drop (suc n) [] = omega arith
length-drop (suc n) (x ∷ xs) = length-drop n xs ∙ omega arith

take-drop : (n : ℕ) (xs : Bytes) → take n xs ++ drop n xs ≡ xs
take-drop zero xs = refl
take-drop (suc n) [] = refl
take-drop (suc n) (x ∷ xs) = ap (λ t. x ∷ t) (take-drop n xs)

abbrev pub join : List Bytes → Bytes
join [] = []
join (c ∷ cs) = c ++ join cs

nil_of_length : (bytes : Bytes) → length bytes ≡ 0 → bytes ≡ []
nil_of_length [] h = refl
nil_of_length (b ∷ bytes) h = absurd (omega arith)

-- whole chunks, and nothing left out
chunks_exact_whole :
    (fuel : ℕ) (bytes : Bytes)
    → length bytes ≤ fuel
    → length bytes % 64 ≡ 0
    → (join (chunks_exact fuel bytes) ≡ bytes) × All (λ c. length c ≡ 64) (chunks_exact fuel bytes)
unfolding chunks_exact
chunks_exact_whole zero bytes h m = (sym (nil_of_length bytes (omega arith)), tt)
chunks_exact_whole (suc fuel) bytes h m = elim (Bool-cases (ltb (length bytes) 64)) [
  | inl short ↦ let empty = nil_of_length bytes (ground arith) in (ground arith, ground arith)
  | inr long ↦
      let enough : 64 ≤ length bytes = ground arith in
      let rest =
        chunks_exact_whole fuel (drop 64 bytes) (omega (arith, length-drop 64 bytes))
          (omega (arith, length-drop 64 bytes)) in
      let first = length-take 64 bytes enough in
      let whole = ap (λ t. take 64 bytes ++ t) rest.0 ∙ take-drop 64 bytes in
      rw long (whole, (first, rest.1))
]

-- The padding loop of `sha256` ends within 64 turns: the padded input is the input, the byte 0x80,
-- fewer than 64 zeros and the length in bits. Its chunks have 64 bytes each and leave nothing of it out.
pub pad_input_complete :
    (input : Bytes)
    → let padded = pad_input input in
      let chunks = chunks_exact (length padded) padded in
      ((k : ℕ) × (k < 64)
        × (padded ≡ (input ++ 0x80 ∷ []) ++ (zeros k ++ be_bytes (length input * 8 % 2 ^ 64))))
      × (join chunks ≡ padded)
      × All (λ c. length c ≡ 64) chunks
unfolding pad_input
pad_input_complete input =
    let start = input ++ 0x80 ∷ [] in
    let bits = be_bytes (length input * 8 % 2 ^ 64) in
    let shape = pad_zeros_complete 64 start (omega arith) in
    let padded : pad_zeros 64 start ++ bits ≡ start ++ (zeros (gap start) ++ bits) =
      ap (λ t. t ++ bits) shape ∙ append_assoc start (zeros (gap start)) bits in
    let whole : length (pad_input input) % 64 ≡ 0 =
      ap (λ (t : Bytes). length t % 64) padded
      ∙ omega (
        arith,
        length-append start (zeros (gap start) ++ bits),
        length-append (zeros (gap start)) bits,
        length-zeros (gap start),
        length-be_bytes (length input * 8 % 2 ^ 64),
      ) in
    let (all, sizes) =
      chunks_exact_whole (length (pad_input input)) (pad_input input) (omega arith) whole in
    ((gap start, omega arith, padded), all, sizes)

abbrev pub is_hex : ℕ → Bool
is_hex c = (leb b'0' c && leb c b'9') || (leb b'a' c && leb c b'f')

length-add_registers : (s r : List ℕ) → length (add_registers s r) ≡ length s
length-add_registers [] [] = refl
length-add_registers [] (y ∷ r) = refl
length-add_registers (x ∷ s) [] = refl
length-add_registers (x ∷ s) (y ∷ r) = ap suc (length-add_registers s r)

length-digest_chunks :
    (state : List ℕ) (chunks : List Bytes) → length (digest_chunks state chunks) ≡ length state
unfolding digest_chunks digest_chunk
length-digest_chunks state [] = refl
length-digest_chunks state (c ∷ chunks) =
    length-digest_chunks (digest_chunk state c) chunks ∙ length-add_registers state _

hex_digit-is_hex : (n : ℕ) → n < 16 → is_hex (hex_digit n) ≡ true
hex_digit-is_hex n h = ground arith

abbrev pub IsHex : ℕ → Type 0
IsHex c = is_hex c ≡ true

hex_word-IsHex : (n word : ℕ) → All IsHex (hex_word n word) × (length (hex_word n word) ≡ n)
unfolding hex_word
hex_word-IsHex zero word = (tt, refl)
hex_word-IsHex (suc n) word =
    let (digits, size) = hex_word-IsHex n (word / 16) in
    let last = hex_digit-is_hex (word % 16) (omega arith) in
    (
      All-append IsHex (hex_word n (word / 16)) _ digits (last, tt),
      omega (arith, length-append (hex_word n (word / 16)) (hex_digit (word % 16) ∷ [])),
    )

hex_words-IsHex : (ws : List ℕ) → All IsHex (hex_words ws) × (length (hex_words ws) ≡ 8 * length ws)
unfolding hex_words
hex_words-IsHex [] = (tt, refl)
hex_words-IsHex (w ∷ ws) =
    let (digits, size) = hex_word-IsHex 8 w in
    let (rest, sizes) = hex_words-IsHex ws in
    (
      All-append IsHex (hex_word 8 w) (hex_words ws) digits rest,
      omega (arith, length-append (hex_word 8 w) (hex_words ws)),
    )

-- A digest is 64 lower-case hexadecimal digits, whatever the input.
pub sha256-IsHex : (input : Bytes) → All IsHex (sha256 input) × (length (sha256 input) ≡ 64)
unfolding sha256
sha256-IsHex input =
    let state = digest_chunks initial (chunks_exact (length (pad_input input)) (pad_input input)) in
    let (digits, size) = hex_words-IsHex state in
    (
      digits,
      size
          ∙ omega (
            arith,
            length-digest_chunks initial
                (chunks_exact (length (pad_input input)) (pad_input input)),
          ),
    )
