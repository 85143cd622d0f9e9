-- ===== src/Config/Mappings/Unique.antt =====
-- src/config.rs: a set of registrations is accepted, or refused for two that contradict each other.
use bif.Base.{
  ◌≡◌, ◌≢◌, refl, sym, ap, subst, ◌∙◌, List, [], ◌∷◌, ◌++◌, append_assoc, append-nil, Option, none,
  some, Result, ok, err, if◌then◌else◌, ◌==◌, holds, list_eq, nat_eq, All, arith, Bool-cases, inl,
  inr,
}
use mathlib.Core.List.{Memᴰ}
use mathlib.Core.Option
use bif.Base.Text.{Text}
use bif.Domain.Identifier.{ProjectId}
use bif.Domain.Item.{project_eq}
use bif.Config.Mappings.{
  ProjectResolutionError, ambiguous_mapping, ambiguous_remote_mapping, ProjectMapping, find_mapping,
  validate, new_path_mappings, new_remote_mappings,
}

-- no key is that of an earlier mapping
abbrev pub UniqueKeys : List ProjectMapping → Type 0
UniqueKeys [] = Unit
UniqueKeys (m ∷ ms) = (find_mapping m.key ms ≡ none) × UniqueKeys ms

-- the project of a mapping is the one that its key is first registered to in a list
abbrev pub Agrees : List ProjectMapping → ProjectMapping → Type 0
Agrees all m =
    Option.map (λ (x : ProjectMapping). x.project) (find_mapping m.key all) ≡ some m.project

find_mapping-append :
    (key : Text) (xs ys : List ProjectMapping)
    → find_mapping key (xs ++ ys)
      ≡ (elim (find_mapping key xs) [ some m ↦ some m | none ↦ find_mapping key ys ])
unfolding find_mapping
find_mapping-append key [] ys = refl
find_mapping-append key (x ∷ xs) ys = ground (arith, find_mapping-append key xs ys)

find_mapping-key :
    (key : Text) (ms : List ProjectMapping) (m : ProjectMapping)
    → find_mapping key ms ≡ some m
    → m.key ≡ key
unfolding find_mapping
find_mapping-key key [] m h = absurd (ground arith)
find_mapping-key key (x ∷ ms) m h = ground (arith, find_mapping-key key ms m)

UniqueKeys-snoc :
    (ms : List ProjectMapping) (m : ProjectMapping)
    → UniqueKeys ms
    → find_mapping m.key ms ≡ none
    → UniqueKeys (ms ++ m ∷ [])
unfolding find_mapping
UniqueKeys-snoc [] m u h = (refl, tt)
UniqueKeys-snoc (x ∷ ms) m u h =
    ground (arith, find_mapping-append x.key ms (m ∷ []), UniqueKeys-snoc ms m u.1)

-- a repeated key hides its mapping
find_mapping-skip :
    (key : Text) (xs ys : List ProjectMapping) (m first : ProjectMapping)
    → find_mapping m.key xs ≡ some first
    → find_mapping key (xs ++ m ∷ ys) ≡ find_mapping key (xs ++ ys)
unfolding find_mapping
find_mapping-skip key xs ys m first h =
    ground (arith, find_mapping-append key xs (m ∷ ys), find_mapping-append key xs ys)

module _ (ambiguous : Text → ProjectId → ProjectId → ProjectResolutionError) where
  validate-fresh :
      (m : ProjectMapping) (ms kept : List ProjectMapping)
      → find_mapping m.key kept ≡ none
      → validate ambiguous (m ∷ ms) kept ≡ validate ambiguous ms (kept ++ m ∷ [])
  unfolding validate
  validate-fresh m ms kept h = rw (h, validate) refl

  validate-known :
      (m first : ProjectMapping) (ms kept : List ProjectMapping)
      → find_mapping m.key kept ≡ some first
      → validate ambiguous (m ∷ ms) kept ≡ (
          if first.project == m.project
          then validate ambiguous ms kept
          else err (ambiguous m.key first.project m.project))
  unfolding validate
  validate-known m first ms kept h =
      rw (h, validate)
        (elim (Bool-cases (first.project == m.project)) [ inl e ↦ rw e refl | inr e ↦ rw e refl ])

  -- what the loop makes of mappings, the last ones of a list
  abbrev pub Outcome :
      List ProjectMapping
      → List ProjectMapping
      → Result (List ProjectMapping) ProjectResolutionError
      → Type 0
  Outcome whole ms (ok out) =
      All (Agrees whole) ms
      × UniqueKeys out
      × ((key : Text) → find_mapping key out ≡ find_mapping key whole)
  Outcome whole ms (err e) =
      (first : ProjectMapping) × (second : ProjectMapping) × Memᴰ second ms
      × (find_mapping second.key whole ≡ some first)
      × (first.project ≢ second.project)
      × (e ≡ ambiguous second.key first.project second.project)

  Outcome-cons :
      (whole ms : List ProjectMapping) (m : ProjectMapping)
      (r : Result (List ProjectMapping) ProjectResolutionError)
      → Agrees whole m
      → Outcome whole ms r
      → Outcome whole (m ∷ ms) r
  Outcome-cons whole ms m (ok out) a (agree, unique, same) = ((a, agree), unique, same)
  Outcome-cons whole ms m (err e) a (first, second, at, found, differ, e') =
      (first, second, Memᴰ.tail at, found, differ, e')

  Outcome-alike :
      (whole other ms : List ProjectMapping)
      (r : Result (List ProjectMapping) ProjectResolutionError)
      → ((key : Text) → find_mapping key whole ≡ find_mapping key other)
      → Outcome whole ms r
      → Outcome other ms r
  Outcome-alike whole other ms (ok out) h (agree, unique, same) =
      (All-alike ms agree, unique, λ key. same key ∙ h key)
    where
      All-alike : (ms : List ProjectMapping) → All (Agrees whole) ms → All (Agrees other) ms
      All-alike [] a = tt
      All-alike (m ∷ ms) (a, as_before) = (
        ap (Option.map (λ (x : ProjectMapping). x.project)) (sym (h m.key)) ∙ a,
        All-alike ms as_before,
      )
  Outcome-alike whole other ms (err e) h (first, second, at, found, differ, e') =
      (first, second, at, sym (h second.key) ∙ found, differ, e')

  validate-Outcome :
      (ms kept : List ProjectMapping)
      → UniqueKeys kept
      → Outcome (kept ++ ms) ms (validate ambiguous ms kept)
  validate-Outcome [] kept u =
      unfold validate in (tt, u, λ key. ap (find_mapping key) (sym (append-nil kept)))
  validate-Outcome (m ∷ ms) kept u =
      by_find (find_mapping m.key kept) refl (validate-Outcome ms kept u)
        (validate-Outcome ms (kept ++ m ∷ []))
    where
      Goal : Result (List ProjectMapping) ProjectResolutionError → Type 0
      Goal r = Outcome (kept ++ m ∷ ms) (m ∷ ms) r

      by_find :
          (f : Option ProjectMapping)
          → find_mapping m.key kept ≡ f
          → Outcome (kept ++ ms) ms (validate ambiguous ms kept)
          → (UniqueKeys (kept ++ m ∷ [])
              → Outcome ((kept ++ m ∷ []) ++ ms) ms (validate ambiguous ms (kept ++ m ∷ [])))
          → Goal (validate ambiguous (m ∷ ms) kept)
      by_find none fresh later grown =
          let own : find_mapping m.key (kept ++ m ∷ ms) ≡ some m =
            unfold find_mapping in ground (arith, find_mapping-append m.key kept (m ∷ ms)) in
          subst Goal (sym (validate-fresh m ms kept fresh)) (
            Outcome-cons (kept ++ m ∷ ms) ms m _ (rw own refl) (
              subst (λ w. Outcome w ms (validate ambiguous ms (kept ++ m ∷ [])))
                (append_assoc kept (m ∷ []) ms) (grown (UniqueKeys-snoc kept m u fresh))))
      by_find (some first) known later grown =
          let own : find_mapping m.key (kept ++ m ∷ ms) ≡ some first =
            ground (arith, find_mapping-append m.key kept (m ∷ ms)) in
          subst Goal (sym (validate-known m first ms kept known))
            (elim (project_eq.dec first.project m.project)
              as (λ d. Goal (
                if holds d
                then validate ambiguous ms kept
                else err (ambiguous m.key first.project m.project))) [
                  | yes same ↦ Outcome-cons (kept ++ m ∷ ms) ms m _ (rw own (ap some same)) (
                      Outcome-alike (kept ++ ms) (kept ++ m ∷ ms) ms _
                        (λ key. sym (find_mapping-skip key kept ms m first known)) later)
                  | no differ ↦ (first, m, Memᴰ.head refl, own, differ, refl)
                ])

-- A set of registered paths is accepted exactly if each path is registered to one project: then every
-- path is kept once, with its project. Else the error names a path and its first project with another
-- to which it is registered. The same holds of remotes and their identities.
pub new_mappings-Outcome :
    (mappings : List ProjectMapping)
    → Outcome ambiguous_mapping mappings mappings (new_path_mappings mappings)
      × Outcome ambiguous_remote_mapping mappings mappings (new_remote_mappings mappings)
unfolding new_path_mappings new_remote_mappings
new_mappings-Outcome mappings = (
  validate-Outcome ambiguous_mapping mappings [] tt,
  validate-Outcome ambiguous_remote_mapping mappings [] tt,
)
