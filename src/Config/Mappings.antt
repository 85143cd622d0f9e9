-- ===== src/Config/Mappings.antt =====
-- src/config.rs: the registered paths and remotes of projects.
pub mod Unique
pub mod Longest
use bif.Base.{
  ℕ, Bool, true, false, not, List, [], ◌∷◌, ◌++◌, Option, none, some, Result, ok, err, ◌>>=◌, ok_or,
  map_err, if◌then◌else◌, ◌==◌, Eq, list_eq, nat_eq, length, ltb,
}
use mathlib.Core.Option
use bif.Base.Text.{Text}
use bif.Base.Text.Strings.{components, starts_with}
use bif.Domain.Identifier.{ProjectId, InvalidIdentifier}
use bif.Domain.Item.{project_eq}
use bif.Config.{IoError, FileSystem, directory}
use bif.Config.Remotes.{normalize_remote_identity}

pub data ProjectResolutionError : Type 0 where
  invalid_path : Text → IoError → ProjectResolutionError
  invalid_remote : Text → ProjectResolutionError
  invalid_fallback_name : Text → InvalidIdentifier → ProjectResolutionError
  ambiguous_mapping : Text → ProjectId → ProjectId → ProjectResolutionError
  ambiguous_remote_mapping : Text → ProjectId → ProjectId → ProjectResolutionError
  ambiguous_git_identity : ProjectId → ProjectId → ProjectResolutionError

unfoldable pub canonical_directory : FileSystem → Text → Result Text ProjectResolutionError
unfolding directory
canonical_directory fs path = directory fs (invalid_path path) path

-- `ProjectPathMapping` by its `path`, and `ProjectRemoteMapping` by its `identity`
pub record ProjectMapping : Type 0 where
  pub project : ProjectId
  pub key : Text

-- `ProjectPathMapping::new`
unfoldable pub new_path_mapping :
    FileSystem → ProjectId → Text → Result ProjectMapping ProjectResolutionError
unfolding canonical_directory
new_path_mapping fs project path = do
  canonical ← canonical_directory fs path
  ok (record { project = project; key = canonical })

-- `NormalizedRemoteIdentity::new`
unfoldable pub new_identity : Text → Result Text ProjectResolutionError
new_identity target = ok_or (invalid_remote target) (normalize_remote_identity target)

-- `ProjectRemoteMapping::new`
unfoldable pub new_remote_mapping : ProjectId → Text → Result ProjectMapping ProjectResolutionError
unfolding new_identity
new_remote_mapping project target = do
  identity ← new_identity target
  ok (record { project = project; key = identity })

unfoldable pub find_mapping : Text → List ProjectMapping → Option ProjectMapping
find_mapping key [] = none
find_mapping key (m ∷ ms) = if m.key == key then some m else find_mapping key ms

-- the loop of both `new`s, which differ in the error
unfoldable pub validate :
    (Text → ProjectId → ProjectId → ProjectResolutionError)
    → List ProjectMapping
    → List ProjectMapping
    → Result (List ProjectMapping) ProjectResolutionError
unfolding find_mapping
validate ambiguous [] validated = ok validated
validate ambiguous (m ∷ ms) validated = elim (find_mapping m.key validated) [
  | none ↦ validate ambiguous ms (validated ++ m ∷ [])
  | some existing ↦
      let rest = validate ambiguous ms validated in
      if not (existing.project == m.project)
      then err (ambiguous m.key existing.project m.project)
      else rest
]

-- `ProjectPathMappings::new`
unfoldable pub new_path_mappings :
    List ProjectMapping → Result (List ProjectMapping) ProjectResolutionError
unfolding validate
new_path_mappings mappings = validate ambiguous_mapping mappings []

-- `ProjectRemoteMappings::new`
unfoldable pub new_remote_mappings :
    List ProjectMapping → Result (List ProjectMapping) ProjectResolutionError
unfolding validate
new_remote_mappings mappings = validate ambiguous_remote_mapping mappings []

abbrev pub depth : ProjectMapping → ℕ
depth m = length (components m.key)

-- `filter(…).max_by_key(…)`, which takes the last of the greatest
unfoldable pub longest : Text → Option ProjectMapping → List ProjectMapping → Option ProjectMapping
longest working_path best [] = best
longest working_path best (m ∷ ms) =
    longest working_path
      (if starts_with working_path m.key
        then elim best [
          | none ↦ some m
          | some b ↦ if ltb (depth m) (depth b) then some b else some m
        ]
        else best)
      ms

-- `ProjectPathMappings::resolve`
unfoldable pub resolve_path :
    FileSystem → List ProjectMapping → Text → Result (Option ProjectId) ProjectResolutionError
unfolding canonical_directory longest
resolve_path fs mappings working_path = do
  canonical ← canonical_directory fs working_path
  ok (Option.map (λ (m : ProjectMapping). m.project) (longest canonical none mappings))
