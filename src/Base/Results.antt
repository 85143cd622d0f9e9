-- ===== src/Base/Results.antt =====
-- Rust's `Result<T, E>` with its `?`, and `Option` where the code chains with `?` or `and_then`.
use mathlib.Core.Option.{Option, none, some}
use mathlib.Core.Path.{◌≡◌, refl}

pub data Result {ℓ κ} (A : Type ℓ) (E : Type κ) : Type (ℓ ⊔ κ) where
  ok : A → Result A E
  err : E → Result A E

-- how a function that `expect`s ends without a result: by an error, or by the panic
pub data Stopped {ℓ} (E : Type ℓ) : Type ℓ where
  failed : E → Stopped E
  panicked : Stopped E

-- `Option::ok_or`
abbrev pub ok_or {ℓ κ} : {A : Type ℓ} {E : Type κ} → E → Option A → Result A E
ok_or e none = err e
ok_or e (some a) = ok a

-- `Result::map_err`
abbrev pub map_err {ℓ κ μ} :
    {A : Type ℓ} {E : Type κ} {F : Type μ} → (E → F) → Result A E → Result A F
map_err convert (err e) = err (convert e)
map_err convert (ok a) = ok a

module _ {ℓ κ μ} {A : Type ℓ} {B : Type κ} {E : Type μ} where
  -- `?`, which leaves with the first error
  infixl 5 ◌>>=◌
  abbrev pub ◌>>=◌ : Result A E → (A → Result B E) → Result B E
  err error >>= next = err error
  ok value >>= next = next value

  infixl 5 ◌>>◌
  abbrev pub ◌>>◌ : Result A E → Result B E → Result B E
  first >> second = first >>= λ ignored. second

  -- a chain that succeeds has gone through
  pub >>=-eq-ok :
      (first : Result A E) (next : A → Result B E) {done : B}
      → (first >>= next) ≡ ok done
      → (value : A) × (first ≡ ok value) × (next value ≡ ok done)
  >>=-eq-ok (err error) next h = cc
  >>=-eq-ok (ok value) next h = (value, refl, h)
