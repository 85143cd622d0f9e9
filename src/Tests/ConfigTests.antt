-- ===== src/Tests/ConfigTests.antt =====
-- src/config.rs: a configuration, and the project of a checkout.
use bif.Base.{
  ◌≡◌, ◌≢◌, ◌⊎◌, refl, true, List, [], ◌∷◌, Option, none, some, ok, err, ◌>>=◌, map_err, All,
  list_eq, nat_eq, List-discrete, ℕ_discrete,
}
use mathlib.Core.Option
use mathlib.Core.List.{Memᴰ}
use bif.Base.Text.{Text, codes, is_whitespace, to_lower}
use bif.Base.Text.Strings.{
  components, split, split_once, split_once_at, strip_prefix, strip_suffix, trim_start_matches,
  trim_end_matches, after_last,
}
use bif.Domain.Identifier.{ProjectId, new_requester}
use bif.Domain.Item.{ProjectId-discrete}
use bif.Config.{FileSystem, invalid_requester, directory}
use bif.Config.Mappings.{
  ProjectMapping, ambiguous_mapping, ambiguous_remote_mapping, ambiguous_git_identity,
  canonical_directory, new_path_mappings, new_remote_mappings, validate, find_mapping, resolve_path,
  longest, new_identity,
}
use bif.Config.Mappings.Unique.{Outcome, new_mappings-Outcome}
use bif.Config.Mappings.Longest.{IsLongest, resolve_path-IsLongest}
use bif.Config.Remotes.{normalize_remote_identity, host_and_path, identity_of, normal_path}
use bif.Config.Resolution.{GitMetadata, registered, resolve_project}
use bif.Config.Resolution.Tiers.{resolve_project-hosted}
use bif.Config.File.Lines.{Line, root_line, requester_line, comment_line, blank_line, print}
use bif.Config.Load.{
  ConfigOverrides, Environment, other_os, config_path, existing, load_with_environment,
}
use bif.Config.Load.Precedence.{preferred, load-print}

abbrev bif_project : ProjectId
bif_project = record { as_str = codes "bif" }

abbrev docs : ProjectId
docs = record { as_str = codes "docs" }

-- the requester first, behind a comment
abbrev rows : List Line
rows =
    comment_line (codes " BIF")
    ∷ requester_line (codes "davis")
    ∷ blank_line
    ∷ root_line (codes "/store")
    ∷ []

abbrev file : Text
file = print rows

-- all paths are canonical directories, and every file reads as the same
abbrev fs : FileSystem
fs = record {
  canonicalize = λ path. ok path;
  is_dir = λ path. ok true;
  read_to_string = λ path. ok file;
  exists = λ path. true;
}

abbrev paths : List ProjectMapping
paths =
    record { project = bif_project; key = codes "/work" }
    ∷ record { project = docs; key = codes "/work/docs" }
    ∷ []

abbrev remotes : List ProjectMapping
remotes = record { project = bif_project; key = codes "host/bif" } ∷ []

new_mappings-Outcome_example :
    Outcome ambiguous_mapping paths paths (new_path_mappings paths)
    × Outcome ambiguous_remote_mapping paths paths (new_remote_mappings paths)
new_mappings-Outcome_example = new_mappings-Outcome paths

paths_accepted : new_path_mappings paths ≡ ok paths
unfolding new_path_mappings validate find_mapping List-discrete ℕ_discrete
paths_accepted = refl

twice_refused :
    new_path_mappings (
      record { project = bif_project; key = codes "/work" }
      ∷ record { project = docs; key = codes "/work" }
      ∷ [])
    ≡ err (ambiguous_mapping (codes "/work") bif_project docs)
unfolding new_path_mappings validate find_mapping List-discrete ℕ_discrete ProjectId-discrete
twice_refused = refl

resolve_path-IsLongest_example :
    (answer : Option ProjectMapping) × (resolve_path fs paths (codes "/work/docs/api")
      ≡ ok (Option.map (λ (m : ProjectMapping). m.project) answer))
    × IsLongest (codes "/work/docs/api") paths answer
unfolding canonical_directory directory
resolve_path-IsLongest_example =
    resolve_path-IsLongest fs paths (codes "/work/docs/api") (codes "/work/docs/api") refl

deepest : resolve_path fs paths (codes "/work/docs/api") ≡ ok (some docs)
unfolding resolve_path canonical_directory directory longest components split List-discrete
    ℕ_discrete
deepest = refl

abbrev git : GitMetadata
git = record {
  repository_root = codes "/src/clone";
  remotes =
      record { name = codes "origin"; target = codes "git@host:bif.git" }
      ∷ record { name = codes "fork"; target = codes "git@host:other" }
      ∷ [];
}

resolve_project-hosted_example :
    let answer = resolve_project fs none (codes "/src/clone") (some git) paths remotes in
    (All (λ p. p ≡ bif_project) [] × (answer ≡ ok bif_project))
    ⊎ ((second : ProjectId) × Memᴰ second []
        × (bif_project ≢ second)
        × (answer ≡ err (ambiguous_git_identity bif_project second)))
unfolding resolve_path canonical_directory directory longest components split List-discrete
    ℕ_discrete registered new_identity normalize_remote_identity host_and_path identity_of
    split_once split_once_at after_last normal_path strip_suffix trim_end_matches trim_start_matches
    is_whitespace to_lower find_mapping strip_prefix
resolve_project-hosted_example =
    resolve_project-hosted fs (codes "/src/clone") git paths remotes bif_project [] refl refl

abbrev overrides : ConfigOverrides
overrides = record { config = some (codes "/etc/bif"); root = none; requester = none }

abbrev environment : Environment
environment name = none

load-print_example : load_with_environment other_os fs overrides environment ≡ (
    map_err invalid_requester (new_requester (preferred none none (codes "davis"))) >>= λ id.
    ok (record {
      root = preferred none none (codes "/store");
      requester = id;
      source = existing fs (some (codes "/etc/bif"));
    }))
unfolding config_path ℕ_discrete
load-print_example =
    load-print other_os fs overrides environment (codes "/etc/bif") (codes "/store") (codes "davis")
      rows refl refl ((refl, refl), (refl, (tt, (refl, tt)))) (refl, (refl, refl))
