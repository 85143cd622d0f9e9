-- ===== src/Base/Int.antt =====
-- SQLite's INTEGER columns, `i64`. `negsuc n` is -(n + 1).
use bif.Base.{
  Eq, ℕ_discrete, ap, ℕ, ◌-◌, ◌^◌, ◌<◌, ◌≡◌, Bool, false, Option, none, some, ltb, if◌then◌else◌,
  arith,
}

pub data ℤ : Type 0 where
  pos : ℕ → ℤ
  negsuc : ℕ → ℤ

unfoldable pub ℤ-discrete : Discrete ℤ
ℤ-discrete (pos m) (pos n) = elim (ℕ_discrete m n) [
  | yes p ↦ yes (ap pos p)
  | no h ↦ no (λ e. h (cc))
]
ℤ-discrete (pos m) (negsuc n) = no (λ e. cc)
ℤ-discrete (negsuc m) (pos n) = no (λ e. cc)
ℤ-discrete (negsuc m) (negsuc n) = elim (ℕ_discrete m n) [
  | yes p ↦ yes (ap negsuc p)
  | no h ↦ no (λ e. h (cc))
]

instance abbrev pub int_eq : Eq ℤ
int_eq = record { dec = ℤ-discrete }

-- `value as i64`, for a `u64`
unfoldable pub as_i64 : ℕ → ℤ
as_i64 n = if ltb n (2 ^ 63) then pos n else negsuc (2 ^ 64 - 1 - n)

-- `u64::try_from`
abbrev pub try_u64 : ℤ → Option ℕ
try_u64 (pos n) = some n
try_u64 (negsuc n) = none

-- `column > 0`
abbrev pub is_positive : ℤ → Bool
is_positive (pos n) = ltb 0 n
is_positive (negsuc n) = false

pub as_i64_of_lt : (n : ℕ) → n < 2 ^ 63 → as_i64 n ≡ pos n
unfolding as_i64
as_i64_of_lt n h = ground arith
