-- ===== src/Config/Remotes.antt =====
-- src/config.rs: `normalize_remote_identity` and `local_remote_path`.
pub mod Spelling
pub mod Equivalence
use bif.Base.{
  ℕ, Bool, true, false, ◌&&◌, ◌||◌, List, [], ◌∷◌, ◌++◌, Option, none, some, any, if◌then◌else◌,
  ◌==◌, list_eq, nat_eq,
}
use mathlib.Core.Option
use bif.Base.Text.{Text, codes, is_upper, is_lower}
use bif.Base.Text.Strings.{
  to_ascii_lowercase, split_once, split_once_at, strip_prefix, strip_suffix, after_last,
  before_first, trim, trim_matches, trim_end_matches, is_empty, is_absolute, join, slash,
}

abbrev is_slash : ℕ → Bool
is_slash c = c == slash

-- `authority.len() == 1 && …is_ascii_alphabetic()`: a drive letter
abbrev pub is_drive : Text → Bool
is_drive (c ∷ []) = is_upper c || is_lower c
is_drive _ = false

-- the branch of a target with a scheme
abbrev pub url_parts : Text → Text → Option (Text × Text)
url_parts scheme remainder =
    if to_ascii_lowercase scheme == codes "file"
    then none
    else Option.map (λ (authority, path). (before_first b':' (after_last b'@' authority), path))
        (split_once slash remainder)

-- the branch of an scp-style target
abbrev pub scp_parts : Text → Option (Text × Text)
scp_parts target = elim (split_once b':' target) [
  | none ↦ none
  | some (authority, path) ↦
      if any (λ c. c == slash) authority || (any (λ c. c == 0x5c) authority || is_drive authority)
      then none
      else some (after_last b'@' authority, path)
]

unfoldable pub host_and_path : Text → Option (Text × Text)
unfolding split_once split_once_at after_last before_first
host_and_path target = elim (split_once_at (codes "://") target) [
  | some (scheme, remainder) ↦ url_parts scheme remainder
  | none ↦ scp_parts target
]

abbrev pub without_suffix : Text → Text → Text
without_suffix suffix s = elim (strip_suffix suffix s) [ some rest ↦ rest | none ↦ s ]

-- the `path` that is compared
unfoldable pub normal_path : Text → Text
unfolding strip_suffix
normal_path path =
    trim_end_matches is_slash
      (without_suffix (codes ".git") (to_ascii_lowercase (trim_matches is_slash path)))

unfoldable pub identity_of : Text → Text → Option Text
unfolding normal_path
identity_of host path =
    if is_empty host || is_empty (normal_path path)
    then none
    else some (to_ascii_lowercase host ++ (slash ∷ normal_path path))

unfoldable pub normalize_remote_identity : Text → Option Text
unfolding host_and_path identity_of
normalize_remote_identity target = elim (host_and_path (trim_end_matches is_slash (trim target))) [
  | none ↦ none
  | some (host, path) ↦ identity_of host path
]

abbrev starts : Text → Text → Bool
starts p s = elim (strip_prefix p s) [ some rest ↦ true | none ↦ false ]

unfoldable pub local_remote_path : Text → Text → Option Text
unfolding strip_prefix join
local_remote_path repository_root target =
    let path : Text = elim (strip_prefix (codes "file://") target) [
      | some rest ↦ rest
      | none ↦ target
    ] in
    if is_absolute path
    then some path
    else if starts (codes "./") path || starts (codes "../") path
    then some (join repository_root path)
    else none
