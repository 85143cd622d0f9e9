-- ===== src/Config.antt =====
-- src/config.rs: configuration, the location of the store, and the project of a directory. The file
-- system is a parameter: it is what the code calls of `std::fs` at one moment.
pub mod Mappings
pub mod Remotes
pub mod Resolution
pub mod File
pub mod Load
use bif.Base.{ℕ, Bool, true, false, not, Result, ok, err, ◌>>=◌, map_err, if◌then◌else◌}
use bif.Base.Text.{Text, codes}
use bif.Base.Text.Strings.{join}
use bif.Domain.Identifier.{InvalidIdentifier}

-- `io::Error` by its `ErrorKind`, as far as the code tells kinds apart
pub data IoError : Type 0 where
  not_found invalid_input other : IoError

-- `fs::canonicalize`, `fs::metadata` with `is_dir`, `fs::read_to_string` and `Path::exists`
pub record FileSystem : Type 0 where
  pub canonicalize : Text → Result Text IoError
  pub is_dir : Text → Result Bool IoError
  pub read_to_string : Text → Result Text IoError
  pub exists : Text → Bool

-- the messages of `InvalidFile`, each with the number of its line
pub data FileProblem : Type 0 where
  no_pair not_quoted duplicate_key : FileProblem
  unknown_key : Text → FileProblem

pub data ConfigError : Type 0 where
  not_initialized : ConfigError
  invalid_requester : InvalidIdentifier → ConfigError
  invalid_file : Text → FileProblem → ℕ → ConfigError
  invalid_root read : Text → IoError → ConfigError

-- `ConfigError::code`
unfoldable pub code : ConfigError → Text
code not_initialized = codes "not_initialized"
code (read path source) = codes "internal"
code _ = codes "invalid_input"

pub record StorePaths : Type 0 where
  pub root : Text
  pub database : Text

-- the two fallible steps to a directory, under any error type
unfoldable pub directory : {E : Type 0} → FileSystem → (IoError → E) → Text → Result Text E
directory fs fail path = do
  canonical ← map_err fail (fs.canonicalize path)
  is_dir ← map_err fail (fs.is_dir canonical)
  if not is_dir then err (fail invalid_input) else ok canonical

unfoldable pub resolve_store_root : FileSystem → Text → Result StorePaths ConfigError
unfolding directory
resolve_store_root fs root = do
  canonical_root ← directory fs (invalid_root root) root
  ok (record {
    root = canonical_root;
    database = join (join canonical_root (codes ".bif")) (codes "bif.sqlite");
  })
