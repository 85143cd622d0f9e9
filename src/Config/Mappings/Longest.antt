-- ===== src/Config/Mappings/Longest.antt =====
-- src/config.rs: a working directory belongs to the project of its longest registered ancestor.
use bif.Base.{
  ℕ, ◌≤◌, ◌≡◌, refl, true, false, List, [], ◌∷◌, Option, none, some, ok, list_eq, nat_eq, length,
  ltb, All, arith, Bool-cases, inl, inr, sym, ◌⊎◌,
}
use mathlib.Core.List.{Memᴰ}
use mathlib.Core.Option
use bif.Base.Text.{Text}
use bif.Base.Text.Strings.{components, starts_with, is_prefix}
use bif.Config.{FileSystem}
use bif.Config.Mappings.{ProjectMapping, canonical_directory, depth, longest, resolve_path}

-- the answer for a directory: no registered path is an ancestor of it; or one is, no other ancestor
-- has more components, and each that has as many has the same ones
abbrev pub IsLongest : Text → List ProjectMapping → Option ProjectMapping → Type 0
IsLongest path ms none = All (λ (m : ProjectMapping). starts_with path m.key ≡ false) ms
IsLongest path ms (some best) =
    Memᴰ best ms
    × (starts_with path best.key ≡ true)
    × All
        (λ (m : ProjectMapping).
          starts_with path m.key ≡ true
          → (depth m ≤ depth best)
            × (depth best ≤ depth m → components m.key ≡ components best.key))
        ms

-- two prefixes of a list as long as each other
is_prefix-same :
    (xs ys zs : List Text)
    → is_prefix xs zs ≡ true
    → is_prefix ys zs ≡ true
    → length xs ≡ length ys
    → xs ≡ ys
is_prefix-same [] [] zs h k e = refl
is_prefix-same [] (y ∷ ys) zs h k e = absurd (omega arith)
is_prefix-same (x ∷ xs) [] zs h k e = absurd (omega arith)
is_prefix-same (x ∷ xs) (y ∷ ys) [] h k e = absurd (ground arith)
is_prefix-same (x ∷ xs) (y ∷ ys) (z ∷ zs) h k e = ground (arith, is_prefix-same xs ys zs)

module _ (path : Text) where
  abbrev IsAncestor : Option ProjectMapping → Type 0
  IsAncestor none = Unit
  IsAncestor (some b) = starts_with path b.key ≡ true

  abbrev Reaches : ℕ → List ProjectMapping → Type 0
  Reaches n = All (λ (m : ProjectMapping). starts_with path m.key ≡ true → depth m ≤ n)

  -- what the loop makes of a candidate and the mappings that are left
  abbrev Found : Option ProjectMapping → List ProjectMapping → Option ProjectMapping → Type 0
  Found none ms none = All (λ (m : ProjectMapping). starts_with path m.key ≡ false) ms
  Found (some b) ms none = ⊥
  Found none ms (some w) = Memᴰ w ms × (starts_with path w.key ≡ true) × Reaches (depth w) ms
  Found (some b) ms (some w) =
      ((b ≡ w) ⊎ Memᴰ w ms)
      × (starts_with path w.key ≡ true)
      × (depth b ≤ depth w)
      × Reaches (depth w) ms

  -- a mapping that is no ancestor is passed over
  Found-skip :
      (best : Option ProjectMapping) (m : ProjectMapping) (ms : List ProjectMapping)
      (r : Option ProjectMapping)
      → starts_with path m.key ≡ false
      → Found best ms r
      → Found best (m ∷ ms) r
  Found-skip none m ms none h f = (h, f)
  Found-skip none m ms (some w) h (at, anc, all) = (Memᴰ.tail at, anc, ((λ t. cc), all))
  Found-skip (some b) m ms none h f = f
  Found-skip (some b) m ms (some w) h (inl e, anc, le, all) = (inl e, anc, le, ((λ t. cc), all))
  Found-skip (some b) m ms (some w) h (inr at, anc, le, all) =
      (inr (Memᴰ.tail at), anc, le, ((λ t. cc), all))

  -- an ancestor that is at least as long as the candidate replaces it
  Found-take :
      (best : Option ProjectMapping) (m : ProjectMapping) (ms : List ProjectMapping)
      (r : Option ProjectMapping)
      → ((b : ProjectMapping) → best ≡ some b → depth b ≤ depth m)
      → Found (some m) ms r
      → Found best (m ∷ ms) r
  Found-take best m ms none h f = absurd f
  Found-take none m ms (some w) h (inl e, anc, le, all) = (Memᴰ.head (sym e), anc, ((λ t. le), all))
  Found-take none m ms (some w) h (inr at, anc, le, all) = (Memᴰ.tail at, anc, ((λ t. le), all))
  Found-take (some b) m ms (some w) h (inl e, anc, le, all) =
      (inr (Memᴰ.head (sym e)), anc, omega (arith, h b refl), ((λ t. le), all))
  Found-take (some b) m ms (some w) h (inr at, anc, le, all) =
      (inr (Memᴰ.tail at), anc, omega (arith, h b refl), ((λ t. le), all))

  -- a shorter ancestor than the candidate is passed over
  Found-keep :
      (b m : ProjectMapping) (ms : List ProjectMapping) (r : Option ProjectMapping)
      → depth m ≤ depth b
      → Found (some b) ms r
      → Found (some b) (m ∷ ms) r
  Found-keep b m ms none h f = f
  Found-keep b m ms (some w) h (inl e, anc, le, all) = (inl e, anc, le, ((λ t. omega arith), all))
  Found-keep b m ms (some w) h (inr at, anc, le, all) =
      (inr (Memᴰ.tail at), anc, le, ((λ t. omega arith), all))

  longest-Found :
      (ms : List ProjectMapping) (best : Option ProjectMapping)
      → IsAncestor best
      → Found best ms (longest path best ms)
  unfolding longest
  longest-Found [] none a = tt
  longest-Found [] (some b) a = (inl refl, a, omega arith, tt)
  longest-Found (m ∷ ms) none a = elim (Bool-cases (starts_with path m.key)) [
    | inr e ↦ rw e (Found-skip none m ms (longest path none ms) e (longest-Found ms none tt))
    | inl e ↦
        rw e (
          Found-take none m ms (longest path (some m) ms) (λ b q. cc) (longest-Found ms (some m) e))
  ]
  longest-Found (m ∷ ms) (some b) a = elim (Bool-cases (starts_with path m.key)) [
    | inr e ↦
        rw e (Found-skip (some b) m ms (longest path (some b) ms) e (longest-Found ms (some b) a))
    | inl e ↦ elim (Bool-cases (ltb (depth m) (depth b))) [
      | inl l ↦
          rw (e, l)
            (Found-keep b m ms (longest path (some b) ms) (ground arith)
              (longest-Found ms (some b) a))
      | inr l ↦
          rw (e, l)
            (Found-take (some b) m ms (longest path (some m) ms) (λ b' q. ground arith)
              (longest-Found ms (some m) e))
    ]
  ]

  Found-IsLongest :
      (ms : List ProjectMapping) (r : Option ProjectMapping) → Found none ms r → IsLongest path ms r
  Found-IsLongest ms none f = f
  Found-IsLongest ms (some w) (at, anc, all) = (at, anc, same ms all)
    where
      same :
          (ms : List ProjectMapping)
          → Reaches (depth w) ms
          → All
              (λ (m : ProjectMapping).
                starts_with path m.key ≡ true
                → (depth m ≤ depth w) × (depth w ≤ depth m → components m.key ≡ components w.key))
              ms
      same [] all = tt
      same (m ∷ ms) (le, all) = (
        λ t. (
          le t,
          λ ge.
              is_prefix-same (components m.key) (components w.key) (components path) t anc
                (let h = le t in omega arith),
        ),
        same ms all,
      )

-- A working directory that can be resolved belongs to the project of the longest registered ancestor
-- of its canonical path, and to none exactly if no registered path is an ancestor. Any other ancestor
-- as long as the chosen one is the same path, so the order of the registrations matters only among
-- repetitions of a path.
pub resolve_path-IsLongest :
    (fs : FileSystem) (mappings : List ProjectMapping) (path canonical : Text)
    → canonical_directory fs path ≡ ok canonical
    → (answer : Option ProjectMapping) × (resolve_path fs mappings path
        ≡ ok (Option.map (λ (m : ProjectMapping). m.project) answer))
      × IsLongest canonical mappings answer
unfolding resolve_path
resolve_path-IsLongest fs mappings path canonical h = (
  longest canonical none mappings,
  rw h refl,
  Found-IsLongest canonical mappings (longest canonical none mappings)
      (longest-Found canonical mappings none tt),
)
