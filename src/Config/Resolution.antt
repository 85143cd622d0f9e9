-- ===== src/Config/Resolution.antt =====
-- src/config.rs: the project of a Git checkout and of a directory.
pub mod Tiers
use bif.Base.{
  Bool, true, false, not, List, [], ◌∷◌, Option, none, some, Result, ok, err, ◌>>=◌, map_err,
  if◌then◌else◌, ◌==◌, list_eq, nat_eq,
}
use bif.Base.Text.{Text, codes}
use bif.Base.Text.Strings.{file_name}
use bif.Domain.Identifier.{ProjectId, new_project}
use bif.Domain.Item.{project_eq}
use bif.Config.{FileSystem}
use bif.Config.Remotes.{local_remote_path}
use bif.Config.Mappings.{
  ProjectResolutionError, ambiguous_git_identity, invalid_fallback_name, ProjectMapping,
  new_identity, find_mapping, resolve_path,
}

pub record GitRemote : Type 0 where
  pub name : Text
  pub target : Text

pub record GitMetadata : Type 0 where
  pub repository_root : Text
  pub remotes : List GitRemote

-- the `if let Some(existing) = resolved` of both loops
abbrev pub agree : Option ProjectId → ProjectId → Result (Option ProjectId) ProjectResolutionError
agree none project = ok (some project)
agree (some existing) project =
    if not (existing == project)
    then err (ambiguous_git_identity existing project)
    else ok (some existing)

-- the mapping of a remote, if it has an identity that is registered
unfoldable pub registered : List ProjectMapping → GitRemote → Option ProjectMapping
unfolding new_identity find_mapping
registered mappings remote = elim (new_identity remote.target) [
  | err e ↦ none
  | ok identity ↦ find_mapping identity mappings
]

-- `ProjectRemoteMappings::resolve`
unfoldable pub resolve_remotes :
    List ProjectMapping
    → List GitRemote
    → Option ProjectId
    → Result (Option ProjectId) ProjectResolutionError
unfolding registered
resolve_remotes mappings [] resolved = ok resolved
resolve_remotes mappings (remote ∷ remotes) resolved = elim (registered mappings remote) [
  | none ↦ resolve_remotes mappings remotes resolved
  | some mapping ↦ agree resolved mapping.project >>= λ next. resolve_remotes mappings remotes next
]

-- the targets of the remotes named `local` that are local paths
unfoldable pub local_targets : Text → List GitRemote → List Text
unfolding local_remote_path
local_targets repository_root [] = []
local_targets repository_root (remote ∷ remotes) =
    let rest = local_targets repository_root remotes in
    if remote.name == codes "local"
    then elim (local_remote_path repository_root remote.target) [
      | none ↦ rest
      | some target ↦ target ∷ rest
    ]
    else rest

-- the loop over `local_targets`
unfoldable pub resolve_targets :
    FileSystem
    → List ProjectMapping
    → List Text
    → Option ProjectId
    → Result (Option ProjectId) ProjectResolutionError
unfolding resolve_path
resolve_targets fs paths [] resolved = ok resolved
resolve_targets fs paths (target ∷ targets) resolved = resolve_path fs paths target >>= λ found.
    elim found [
      | none ↦ resolve_targets fs paths targets resolved
      | some project ↦ agree resolved project >>= λ next. resolve_targets fs paths targets next
    ]

unfoldable pub resolve_git_project :
    FileSystem
    → GitMetadata
    → List ProjectMapping
    → List ProjectMapping
    → Result (Option ProjectId) ProjectResolutionError
unfolding resolve_remotes local_targets resolve_targets
resolve_git_project fs metadata paths remotes = do
  hosted ← resolve_remotes remotes metadata.remotes none
  elim hosted [
    | some project ↦ ok (some project)
    | none ↦ resolve_targets fs paths (local_targets metadata.repository_root metadata.remotes) none
  ]

abbrev unwrap_or_default : Option Text → Text
unwrap_or_default none = []
unwrap_or_default (some name) = name

unfoldable pub project_from_directory_name : Text → Result ProjectId ProjectResolutionError
unfolding file_name
project_from_directory_name path =
    map_err (invalid_fallback_name path) (new_project (unwrap_or_default (file_name path)))

-- from `if let Some(metadata) = git` on
unfoldable pub resolve_checkout :
    FileSystem
    → Text
    → Option GitMetadata
    → List ProjectMapping
    → List ProjectMapping
    → Result ProjectId ProjectResolutionError
unfolding resolve_git_project project_from_directory_name
resolve_checkout fs working_directory none paths remotes =
    project_from_directory_name working_directory
resolve_checkout fs working_directory (some metadata) paths remotes =
    resolve_git_project fs metadata paths remotes >>= λ found. elim found [
      | some project ↦ ok project
      | none ↦ project_from_directory_name metadata.repository_root
    ]

unfoldable pub resolve_project :
    FileSystem
    → Option ProjectId
    → Text
    → Option GitMetadata
    → List ProjectMapping
    → List ProjectMapping
    → Result ProjectId ProjectResolutionError
unfolding resolve_checkout resolve_path
resolve_project fs (some project) working_directory git paths remotes = ok project
resolve_project fs none working_directory git paths remotes =
    resolve_path fs paths working_directory >>= λ found. elim found [
      | some project ↦ ok project
      | none ↦ resolve_checkout fs working_directory git paths remotes
    ]
