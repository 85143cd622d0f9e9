-- ===== src/Config/Load.antt =====
-- src/config.rs: `load_with_environment`, and the default place of the file.
pub mod Precedence
use bif.Base.{
  Bool, true, false, not, ◌||◌, ◌&&◌, Option, none, some, Result, ok, err, ◌>>=◌, map_err,
  if◌then◌else◌,
}
use mathlib.Core.Option
use bif.Base.Text.{Text, codes}
use bif.Base.Text.Strings.{join}
use bif.Domain.Identifier.{RequesterId, new_requester}
use bif.Config.{
  IoError, not_found, FileSystem, ConfigError, not_initialized, invalid_requester, read, StorePaths,
  resolve_store_root,
}
use bif.Config.File.{FileValues, no_values, parse_file}

pub record ConfigOverrides : Type 0 where
  pub config : Option Text
  pub root : Option Text
  pub requester : Option Text

pub record Config : Type 0 where
  pub root : Text
  pub requester : RequesterId
  pub source : Option Text

-- `cfg!(target_os = …)`
pub data TargetOs : Type 0 where
  windows macos other_os : TargetOs

-- `Environment::value`
abbrev pub Environment : Type 0
Environment = Text → Option Text

-- `Option::or_else`, `Option::or`
infixl 20 ◌or_else◌
abbrev pub ◌or_else◌ : {A : Type 0} → Option A → Option A → Option A
none or_else b = b
some a or_else b = some a

unfoldable pub os_config_path : TargetOs → Environment → Option Text
unfolding join
os_config_path windows environment =
    Option.map (λ path. join (join path (codes "BIF")) (codes "config.toml"))
      (environment (codes "APPDATA"))
os_config_path macos environment =
    Option.map
      (λ path.
        join (join (join (join path (codes "Library")) (codes "Application Support")) (codes "BIF"))
          (codes "config.toml"))
      (environment (codes "HOME"))
os_config_path other_os environment =
    Option.map (λ path. join (join path (codes "bif")) (codes "config.toml"))
      (environment (codes "XDG_CONFIG_HOME")
        or_else Option.map (λ path. join path (codes ".config")) (environment (codes "HOME")))

abbrev pub is_some : Option Text → Bool
is_some none = false
is_some (some t) = true

abbrev pub is_not_found : IoError → Bool
is_not_found not_found = true
is_not_found _ = false

unfoldable pub config_path : TargetOs → ConfigOverrides → Environment → Option Text
unfolding os_config_path
config_path os overrides environment =
    overrides.config or_else environment (codes "BIF_CONFIG") or_else os_config_path os environment

-- the `match fs::read_to_string(path)`
abbrev pub read_values : FileSystem → Bool → Text → Result FileValues ConfigError
read_values fs explicit_file path = elim (fs.read_to_string path) [
  | ok contents ↦ parse_file path contents
  | err e ↦ if is_not_found e && not explicit_file then ok no_values else err (read path e)
]

-- the `file_values`
unfoldable pub file_values :
    TargetOs → FileSystem → ConfigOverrides → Environment → Result FileValues ConfigError
unfolding config_path
file_values os fs overrides environment = elim (config_path os overrides environment) [
  | none ↦ ok no_values
  | some path ↦
      read_values fs (is_some overrides.config || is_some (environment (codes "BIF_CONFIG"))) path
]

-- `config_path.filter(|path| path.exists())`
abbrev pub existing : FileSystem → Option Text → Option Text
existing fs none = none
existing fs (some path) = if fs.exists path then some path else none

-- from `let (Some(root), Some(requester))` on
abbrev pub build : Option Text → Option Text → Option Text → Result Config ConfigError
build (some root) (some requester) source = do
  id ← map_err invalid_requester (new_requester requester)
  ok (record { root = root; requester = id; source = source })
build _ _ source = err not_initialized

unfoldable pub load_with_environment :
    TargetOs → FileSystem → ConfigOverrides → Environment → Result Config ConfigError
unfolding file_values
load_with_environment os fs overrides environment = do
  values ← file_values os fs overrides environment
  build (overrides.root or_else environment (codes "BIF_ROOT") or_else values.root)
      (overrides.requester or_else environment (codes "BIF_REQUESTER") or_else values.requester)
      (existing fs (config_path os overrides environment))

-- `Config::store_paths`
unfoldable pub store_paths : FileSystem → Config → Result StorePaths ConfigError
store_paths fs config = resolve_store_root fs config.root
