-- ===== src/Domain/Item/Display.antt =====
-- src/domain.rs: `Display` of `ItemId`, `{}:{}:{:03}`.
use bif.Base.{
  ℕ, zero, suc, ◌+◌, ◌-◌, ◌*◌, ◌/◌, ◌%◌, ◌<◌, ◌≡◌, ◌≢◌, refl, sym, ap, ◌∙◌, Bool, true, false, [],
  ◌∷◌, ◌++◌, if◌then◌else◌, ltb, nat_eq, length, All, arith,
}
use bif.Base.Text.{Text}
use bif.Domain.Identifier.{IdentifierCase, upper, lower}
use bif.Domain.Identifier.Canonical.{IsCanonical, canonical_from}
use bif.Domain.Item.{ItemId}

-- The decimal digits of a number; the fuel bounds their count.
unfoldable pub digits : ℕ → ℕ → Text
digits zero n = []
digits (suc fuel) n =
    let rest = digits fuel (n / 10) in
    if ltb n 10 then (48 + n) ∷ [] else rest ++ (48 + n % 10) ∷ []

unfoldable pub to_decimal : ℕ → Text
unfolding digits
to_decimal n = digits (suc n) n

abbrev pad : ℕ → Text → Text
pad zero s = s
pad (suc k) s = b'0' ∷ pad k s

-- `{:03}`
unfoldable pub padded : ℕ → Text
padded n = pad (3 - length (to_decimal n)) (to_decimal n)

unfoldable pub display : ItemId → Text
display id = id.requester.as_str ++ (b':' ∷ (id.project.as_str ++ (b':' ∷ padded id.sequence)))

-- the number that digits spell behind `acc`
abbrev value : ℕ → Text → ℕ
value acc [] = acc
value acc (c ∷ s) = value (acc * 10 + (c - 48)) s

value-append : (acc : ℕ) (s : Text) (c : ℕ) → value acc (s ++ c ∷ []) ≡ value acc s * 10 + (c - 48)
value-append acc [] c = refl
value-append acc (d ∷ s) c = value-append (acc * 10 + (d - 48)) s c

-- enough fuel gives all the digits
value-digits : (fuel n : ℕ) → n < fuel → value 0 (digits fuel n) ≡ n
unfolding digits
value-digits zero n h = absurd (omega arith)
value-digits (suc fuel) n h =
    ground (arith, value-digits fuel (n / 10), value-append 0 (digits fuel (n / 10)) (48 + n % 10))

value-pad : (k : ℕ) (s : Text) → value 0 (pad k s) ≡ value 0 s
value-pad zero s = refl
value-pad (suc k) s = value-pad k s

value-padded : (n : ℕ) → value 0 (padded n) ≡ n
unfolding padded to_decimal
value-padded n =
    value-pad (3 - length (digits (suc n) n)) (digits (suc n) n)
    ∙ value-digits (suc n) n (omega arith)

abbrev pub Lacks : ℕ → Text → Type 0
Lacks c = All (λ d. d ≢ c)

pub canonical-Lacks :
    (k : IdentifierCase) (start : Bool) (s : Text) → canonical_from k start s ≡ true → Lacks b':' s
canonical-Lacks k start [] h = tt
canonical-Lacks upper start (c ∷ s) h =
    ground (arith, canonical-Lacks upper true s, canonical-Lacks upper false s)
canonical-Lacks lower start (c ∷ s) h =
    ground (arith, canonical-Lacks lower true s, canonical-Lacks lower false s)

-- two texts agree up to the first separator
split_at :
    (c : ℕ) (xs ys r s : Text)
    → Lacks c xs
    → Lacks c ys
    → xs ++ c ∷ r ≡ ys ++ c ∷ s
    → (xs ≡ ys) × (r ≡ s)
split_at c [] [] r s hx hy h = ground arith
split_at c [] (y ∷ ys) r s hx hy h = ground arith
split_at c (x ∷ xs) [] r s hx hy h = ground arith
split_at c (x ∷ xs) (y ∷ ys) r s hx hy h = ground (arith, split_at c xs ys r s)

abbrev pub IsCanonicalId : ItemId → Type 0
IsCanonicalId id = IsCanonical upper id.requester.as_str × IsCanonical lower id.project.as_str

-- Identities with canonical components are displayed alike only if they are equal: the display is
-- a key.
pub display-injective :
    (a b : ItemId) → IsCanonicalId a → IsCanonicalId b → display a ≡ display b → a ≡ b
unfolding display
display-injective a b ha hb h =
    let (r, rest) =
      split_at b':' a.requester.as_str b.requester.as_str _ _ (canonical-Lacks upper true _ ha.0)
        (canonical-Lacks upper true _ hb.0) h in
    let (p, n) =
      split_at b':' a.project.as_str b.project.as_str _ _ (canonical-Lacks lower true _ ha.1)
        (canonical-Lacks lower true _ hb.1) rest in
    let q : a.sequence ≡ b.sequence =
      sym (value-padded a.sequence) ∙ ap (value 0) n ∙ value-padded b.sequence in
    λ i. record {
      requester = record { as_str = r i };
      project = record { as_str = p i };
      sequence = q i;
    }
