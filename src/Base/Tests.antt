-- ===== src/Base/Tests.antt =====
-- Boolean tests on the native numbers, and equality of values as an instance argument: Rust's
-- `PartialEq` of the types that the code compares.
use Prim.Native.Nat.{ℕ, compare, Ordering}
use mathlib.Core.Bool.{Bool, true, false}
use mathlib.Core.Logic.{◌⊎◌, inl, inr}
use mathlib.Core.Option.{Option, none, some}
use mathlib.Core.List.{List, [], ◌∷◌}
use mathlib.Core.Path.{◌≡◌, refl, ap}
use native.Mathlib.Decide.{ℕ_discrete}

abbrev pub ltb : ℕ → ℕ → Bool
ltb a b = elim (compare a b) [ Ordering.lt ↦ true | _ ↦ false ]

abbrev pub leb : ℕ → ℕ → Bool
leb a b = elim (compare a b) [ Ordering.gt ↦ false | _ ↦ true ]

infix 1 if◌then◌else◌
abbrev pub if◌then◌else◌ {ℓ} : {A : Type ℓ} → Bool → A → A → A
if true then x else y = x
if false then x else y = y

pub Bool-cases : (b : Bool) → (b ≡ true) ⊎ (b ≡ false)
Bool-cases true = inl refl
Bool-cases false = inr refl

pub Option-cases {ℓ} : {A : Type ℓ} (o : Option A) → (o ≡ none) ⊎ ((a : A) × (o ≡ some a))
Option-cases none = inl refl
Option-cases (some a) = inr (a, refl)

pub record Eq {ℓ} (A : Type ℓ) : Type ℓ where
  pub dec : Discrete A

abbrev pub holds {ℓ} : {P : Type ℓ} → Dec P → Bool
holds (yes p) = true
holds (no n) = false

infix 50 ◌==◌
abbrev pub ◌==◌ {ℓ} : {A : Type ℓ} ⦃e : Eq A⦄ → A → A → Bool
◌==◌ ⦃e⦄ a b = holds (e.dec a b)

module _ {ℓ} {A : Type ℓ} (dec : Discrete A) where
  unfoldable pub Option-discrete : Discrete (Option A)
  Option-discrete none none = yes refl
  Option-discrete none (some b) = no (λ e. cc)
  Option-discrete (some a) none = no (λ e. cc)
  Option-discrete (some a) (some b) = elim (dec a b) [
    | yes p ↦ yes (ap some p)
    | no n ↦ no (λ e. n (cc))
  ]

  unfoldable pub List-discrete : Discrete (List A)
  List-discrete [] [] = yes refl
  List-discrete [] (y ∷ ys) = no (λ e. cc)
  List-discrete (x ∷ xs) [] = no (λ e. cc)
  List-discrete (x ∷ xs) (y ∷ ys) = elim (dec x y) [
    | no n ↦ no (λ e. n (cc))
    | yes p ↦ elim (List-discrete xs ys) [ yes q ↦ yes (λ i. p i ∷ q i) | no n ↦ no (λ e. n (cc)) ]
  ]

instance abbrev pub nat_eq : Eq ℕ
nat_eq = record { dec = ℕ_discrete }

instance abbrev pub option_eq {ℓ} : {A : Type ℓ} ⦃e : Eq A⦄ → Eq (Option A)
option_eq ⦃e⦄ = record { dec = Option-discrete e.dec }

instance abbrev pub list_eq {ℓ} : {A : Type ℓ} ⦃e : Eq A⦄ → Eq (List A)
list_eq ⦃e⦄ = record { dec = List-discrete e.dec }
