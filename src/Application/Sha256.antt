-- ===== src/Application/Sha256.antt =====
-- src/application.rs: `sha256`, as the lower-case hexadecimal text of the digest. A `u32` is a
-- natural number below 2 ^ 32, and an array is a list of its elements.
pub mod Padding
use Prim.Native.Nat.{bit_and, bit_xor}
use bif.Base.{
  ℕ, zero, suc, ◌+◌, ◌-◌, ◌*◌, ◌/◌, ◌%◌, ◌^◌, List, [], ◌∷◌, ◌++◌, length, if◌then◌else◌, ◌==◌,
  nat_eq, ltb,
}
use bif.Base.Text.{Text, Bytes}
use bif.Application.Payload.{be_bytes}

-- `u32::rotate_right`
abbrev pub rotate_right : ℕ → ℕ → ℕ
rotate_right x n = x / 2 ^ n + x % 2 ^ n * 2 ^ (32 - n)

abbrev pub shift_right : ℕ → ℕ → ℕ
shift_right x n = x / 2 ^ n

-- `!x`
abbrev pub bit_not : ℕ → ℕ
bit_not x = 2 ^ 32 - 1 - x

abbrev pub wrapping_add : ℕ → ℕ → ℕ
wrapping_add x y = (x + y) % 2 ^ 32

-- `words[index]`; no index of the code is out of range
abbrev pub at : List ℕ → ℕ → ℕ
at [] i = 0
at (x ∷ xs) zero = x
at (x ∷ xs) (suc i) = at xs i

abbrev pub take : ℕ → Bytes → Bytes
take zero xs = []
take (suc n) [] = []
take (suc n) (x ∷ xs) = x ∷ take n xs

abbrev pub drop : ℕ → Bytes → Bytes
drop zero xs = xs
drop (suc n) [] = []
drop (suc n) (x ∷ xs) = drop n xs

-- `INITIAL` and `K`
abbrev pub initial : List ℕ
initial =
    0x6a09e667 ∷ 0xbb67ae85 ∷ 0x3c6ef372 ∷ 0xa54ff53a ∷ 0x510e527f ∷ 0x9b05688c ∷ 0x1f83d9ab
    ∷ 0x5be0cd19 ∷ []

abbrev pub round_constants : List ℕ
round_constants =
    0x428a2f98 ∷ 0x71374491 ∷ 0xb5c0fbcf ∷ 0xe9b5dba5 ∷ 0x3956c25b ∷ 0x59f111f1 ∷ 0x923f82a4
    ∷ 0xab1c5ed5 ∷ 0xd807aa98 ∷ 0x12835b01 ∷ 0x243185be ∷ 0x550c7dc3 ∷ 0x72be5d74 ∷ 0x80deb1fe
    ∷ 0x9bdc06a7 ∷ 0xc19bf174 ∷ 0xe49b69c1 ∷ 0xefbe4786 ∷ 0x0fc19dc6 ∷ 0x240ca1cc ∷ 0x2de92c6f
    ∷ 0x4a7484aa ∷ 0x5cb0a9dc ∷ 0x76f988da ∷ 0x983e5152 ∷ 0xa831c66d ∷ 0xb00327c8 ∷ 0xbf597fc7
    ∷ 0xc6e00bf3 ∷ 0xd5a79147 ∷ 0x06ca6351 ∷ 0x14292967 ∷ 0x27b70a85 ∷ 0x2e1b2138 ∷ 0x4d2c6dfc
    ∷ 0x53380d13 ∷ 0x650a7354 ∷ 0x766a0abb ∷ 0x81c2c92e ∷ 0x92722c85 ∷ 0xa2bfe8a1 ∷ 0xa81a664b
    ∷ 0xc24b8b70 ∷ 0xc76c51a3 ∷ 0xd192e819 ∷ 0xd6990624 ∷ 0xf40e3585 ∷ 0x106aa070 ∷ 0x19a4c116
    ∷ 0x1e376c08 ∷ 0x2748774c ∷ 0x34b0bcb5 ∷ 0x391c0cb3 ∷ 0x4ed8aa4a ∷ 0x5b9cca4f ∷ 0x682e6ff3
    ∷ 0x748f82ee ∷ 0x78a5636f ∷ 0x84c87814 ∷ 0x8cc70208 ∷ 0x90befffa ∷ 0xa4506ceb ∷ 0xbef9a3f7
    ∷ 0xc67178f2 ∷ []

-- `while padded.len() % 64 != 56`, on fuel
unfoldable pub pad_zeros : ℕ → Bytes → Bytes
pad_zeros zero padded = padded
pad_zeros (suc fuel) padded =
    let pushed = pad_zeros fuel (padded ++ 0 ∷ []) in
    if length padded % 64 == 56 then padded else pushed

unfoldable pub pad_input : Bytes → Bytes
unfolding pad_zeros
pad_input input =
    let bit_len = length input * 8 % 2 ^ 64 in pad_zeros 64 (input ++ 0x80 ∷ []) ++ be_bytes bit_len

-- `chunks_exact(64)`, on fuel: a rest that is shorter is left out
unfoldable pub chunks_exact : ℕ → Bytes → List Bytes
chunks_exact zero bytes = []
chunks_exact (suc fuel) bytes =
    let rest = chunks_exact fuel (drop 64 bytes) in
    if ltb (length bytes) 64 then [] else take 64 bytes ∷ rest

-- the first loop over `words`, `u32::from_be_bytes`
unfoldable pub read_words : ℕ → Bytes → List ℕ
read_words zero chunk = []
read_words (suc n) chunk =
    (at chunk 0 * 2 ^ 24 + at chunk 1 * 2 ^ 16 + at chunk 2 * 2 ^ 8 + at chunk 3)
    ∷ read_words n (drop 4 chunk)

-- one turn of the second loop: the word at `index`
unfoldable pub next_word : List ℕ → ℕ → ℕ
next_word words index =
    let w15 = at words (index - 15) in
    let w2 = at words (index - 2) in
    let s0 = bit_xor (bit_xor (rotate_right w15 7) (rotate_right w15 18)) (shift_right w15 3) in
    let s1 = bit_xor (bit_xor (rotate_right w2 17) (rotate_right w2 19)) (shift_right w2 10) in
    wrapping_add (wrapping_add (wrapping_add (at words (index - 16)) s0) (at words (index - 7))) s1

unfoldable pub extend_words : ℕ → ℕ → List ℕ → List ℕ
unfolding next_word
extend_words zero index words = words
extend_words (suc n) index words = extend_words n (suc index) (words ++ next_word words index ∷ [])

pub record Registers : Type 0 where
  pub a : ℕ
  pub b : ℕ
  pub c : ℕ
  pub d : ℕ
  pub e : ℕ
  pub f : ℕ
  pub g : ℕ
  pub h : ℕ

-- one turn of the third loop
unfoldable pub compress : ℕ → ℕ → Registers → Registers
compress constant word r =
    let sum1 = bit_xor (bit_xor (rotate_right r.e 6) (rotate_right r.e 11)) (rotate_right r.e 25) in
    let choice = bit_xor (bit_and r.e r.f) (bit_and (bit_not r.e) r.g) in
    let temp1 =
      wrapping_add (wrapping_add (wrapping_add (wrapping_add r.h sum1) choice) constant) word in
    let sum0 = bit_xor (bit_xor (rotate_right r.a 2) (rotate_right r.a 13)) (rotate_right r.a 22) in
    let majority = bit_xor (bit_xor (bit_and r.a r.b) (bit_and r.a r.c)) (bit_and r.b r.c) in
    let temp2 = wrapping_add sum0 majority in
    record {
      a = wrapping_add temp1 temp2;
      b = r.a;
      c = r.b;
      d = r.c;
      e = wrapping_add r.d temp1;
      f = r.e;
      g = r.f;
      h = r.g;
    }

unfoldable pub rounds : List ℕ → List ℕ → Registers → Registers
unfolding compress
rounds (k ∷ ks) (w ∷ ws) r = rounds ks ws (compress k w r)
rounds _ _ r = r

abbrev pub registers : List ℕ → Registers
registers s = record {
  a = at s 0;
  b = at s 1;
  c = at s 2;
  d = at s 3;
  e = at s 4;
  f = at s 5;
  g = at s 6;
  h = at s 7;
}

-- `state.iter_mut().zip([a, …, h])`
abbrev pub add_registers : List ℕ → List ℕ → List ℕ
add_registers (value ∷ values) (addition ∷ additions) =
    wrapping_add value addition ∷ add_registers values additions
add_registers values additions = values

unfoldable pub digest_chunk : List ℕ → Bytes → List ℕ
unfolding extend_words read_words rounds
digest_chunk state chunk =
    let words = extend_words 48 16 (read_words 16 chunk) in
    let r = rounds round_constants words (registers state) in
    add_registers state (r.a ∷ r.b ∷ r.c ∷ r.d ∷ r.e ∷ r.f ∷ r.g ∷ r.h ∷ [])

unfoldable pub digest_chunks : List ℕ → List Bytes → List ℕ
unfolding digest_chunk
digest_chunks state [] = state
digest_chunks state (chunk ∷ chunks) = digest_chunks (digest_chunk state chunk) chunks

abbrev pub hex_digit : ℕ → ℕ
hex_digit n = if ltb n 10 then 48 + n else 87 + n

-- `{word:08x}`
unfoldable pub hex_word : ℕ → ℕ → Text
hex_word zero word = []
hex_word (suc n) word = hex_word n (word / 16) ++ hex_digit (word % 16) ∷ []

unfoldable pub hex_words : List ℕ → Text
unfolding hex_word
hex_words [] = []
hex_words (word ∷ words) = hex_word 8 word ++ hex_words words

unfoldable pub sha256 : Bytes → Text
unfolding pad_input chunks_exact digest_chunks hex_words
sha256 input =
    let padded = pad_input input in
    hex_words (digest_chunks initial (chunks_exact (length padded) padded))
