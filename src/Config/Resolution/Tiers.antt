-- ===== src/Config/Resolution/Tiers.antt =====
-- src/config.rs: the registered remotes of a checkout decide its project, or contradict each other.
use bif.Base.{
  ◌≡◌, ◌≢◌, refl, sym, subst, ◌⊎◌, inl, inr, not, List, [], ◌∷◌, Option, none, some, Result, ok,
  err, ◌>>=◌, if◌then◌else◌, holds, list_eq, nat_eq, All,
}
use mathlib.Core.List.{Memᴰ}
use bif.Base.Text.{Text}
use bif.Domain.Identifier.{ProjectId}
use bif.Domain.Item.{project_eq}
use bif.Config.{FileSystem}
use bif.Config.Mappings.{
  ProjectResolutionError, ambiguous_git_identity, ProjectMapping, resolve_path,
}
use bif.Config.Resolution.{
  GitRemote, GitMetadata, agree, registered, resolve_remotes, resolve_git_project, resolve_checkout,
  resolve_project,
}

-- the projects of the remotes that are registered, in order
abbrev pub candidates : List ProjectMapping → List GitRemote → List ProjectId
candidates mappings [] = []
candidates mappings (remote ∷ remotes) =
    let rest = candidates mappings remotes in
    elim (registered mappings remote) [ none ↦ rest | some m ↦ m.project ∷ rest ]

head_eq : {x y : ProjectId} {xs ys : List ProjectId} → x ∷ xs ≡ y ∷ ys → x ≡ y
head_eq h = cc

tail_eq : {x y : ProjectId} {xs ys : List ProjectId} → x ∷ xs ≡ y ∷ ys → xs ≡ ys
tail_eq h = cc

-- one project for all, or the first with another one
abbrev pub Decided :
    ProjectId → List ProjectId → Result (Option ProjectId) ProjectResolutionError → Type 0
Decided first rest r =
    (All (λ p. p ≡ first) rest × (r ≡ ok (some first)))
    ⊎ ((second : ProjectId) × Memᴰ second rest
        × (first ≢ second)
        × (r ≡ err (ambiguous_git_identity first second)))

Decided-same :
    (first : ProjectId) (rest : List ProjectId)
    (r : Result (Option ProjectId) ProjectResolutionError)
    → Decided first rest r
    → Decided first (first ∷ rest) r
Decided-same first rest r (inl (all, e)) = inl ((refl, all), e)
Decided-same first rest r (inr (second, at, differ, e)) = inr (second, Memᴰ.tail at, differ, e)

resolve_remotes-Decided :
    (mappings : List ProjectMapping) (remotes : List GitRemote) (first : ProjectId)
    → Decided first (candidates mappings remotes) (resolve_remotes mappings remotes (some first))
unfolding resolve_remotes
resolve_remotes-Decided mappings [] first = inl (tt, refl)
resolve_remotes-Decided mappings (remote ∷ remotes) first =
    let later = resolve_remotes-Decided mappings remotes first in
    let rest = candidates mappings remotes in
    elim (registered mappings remote)
      as (λ x.
        Decided first (elim x [ none ↦ rest | some m ↦ m.project ∷ rest ])
          (elim x [
            | none ↦ resolve_remotes mappings remotes (some first)
            | some m ↦
                agree (some first) m.project >>= λ next. resolve_remotes mappings remotes next
          ])) [
            | none ↦ later
            | some m ↦
                elim (project_eq.dec first m.project)
                  as (λ d. Decided first (m.project ∷ rest) (
                    (if not (holds d)
                      then err (ambiguous_git_identity first m.project)
                      else ok (some first))
                    >>= λ next. resolve_remotes mappings remotes next)) [
                      | yes same ↦
                          subst
                            (λ p.
                              Decided first (p ∷ rest)
                                (resolve_remotes mappings remotes (some first)))
                            same (Decided-same first rest _ later)
                      | no differ ↦ inr (m.project, Memᴰ.head refl, differ, refl)
                    ]
          ]

-- with no project yet, the first candidate is the one that the others are compared with
resolve_remotes-first :
    (mappings : List ProjectMapping) (remotes : List GitRemote) (first : ProjectId)
    (rest : List ProjectId)
    → candidates mappings remotes ≡ first ∷ rest
    → Decided first rest (resolve_remotes mappings remotes none)
unfolding resolve_remotes
resolve_remotes-first mappings [] first rest = λ h. cc
resolve_remotes-first mappings (remote ∷ remotes) first rest =
    let more = candidates mappings remotes in
    let later = resolve_remotes-first mappings remotes first rest in
    elim (registered mappings remote)
      as (λ x.
        (elim x [ none ↦ more | some m ↦ m.project ∷ more ]) ≡ first ∷ rest
        → Decided first rest (elim x [
          | none ↦ resolve_remotes mappings remotes none
          | some m ↦ agree none m.project >>= λ next. resolve_remotes mappings remotes next
        ])) [
          | none ↦ later
          | some m ↦ λ h.
              subst (λ p. Decided first rest (resolve_remotes mappings remotes (some p)))
                (sym (head_eq h))
                (subst (λ ps. Decided first ps (resolve_remotes mappings remotes (some first)))
                  (tail_eq h) (resolve_remotes-Decided mappings remotes first))
        ]

-- Where no project is asked for explicitly and no path is registered for the working directory,
-- the registered remotes of its checkout decide, whatever its local remotes and its name are:
-- their one project, or, if another of them has another project than the first, the error that
-- names the two.
pub resolve_project-hosted :
    (fs : FileSystem) (working_directory : Text) (git : GitMetadata)
    (paths remotes : List ProjectMapping) (first : ProjectId) (rest : List ProjectId)
    → resolve_path fs paths working_directory ≡ ok none
    → candidates remotes git.remotes ≡ first ∷ rest
    → let answer = resolve_project fs none working_directory (some git) paths remotes in
      (All (λ p. p ≡ first) rest × (answer ≡ ok first))
      ⊎ ((second : ProjectId) × Memᴰ second rest
          × (first ≢ second)
          × (answer ≡ err (ambiguous_git_identity first second)))
unfolding resolve_project resolve_checkout resolve_git_project
resolve_project-hosted fs working_directory git paths remotes first rest h k =
    elim (resolve_remotes-first remotes git.remotes first rest k) [
      | inl (all, e) ↦ inl (all, rw (h, e) refl)
      | inr (second, at, differ, e) ↦ inr (second, at, differ, rw (h, e) refl)
    ]
