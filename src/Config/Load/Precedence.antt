-- ===== src/Config/Load/Precedence.antt =====
-- src/config.rs: a request's value comes before the environment's, and that before the file's.
use bif.Base.{◌≡◌, refl, List, All, Option, none, some, ok, ◌>>=◌, map_err}
use bif.Base.Text.{Text, codes}
use bif.Domain.Identifier.{new_requester}
use bif.Config.{FileSystem, invalid_requester}
use bif.Config.File.{no_values}
use bif.Config.File.Lines.{Line, print, IsPlain, Sets, parse_file-print}
use bif.Config.Load.{
  ConfigOverrides, TargetOs, Environment, ◌or_else◌, config_path, read_values, file_values,
  existing, load_with_environment,
}

-- the value that takes precedence
abbrev pub preferred : Option Text → Option Text → Text → Text
preferred (some a) b c = a
preferred none (some b) c = b
preferred none none c = c

preferred-or_else :
    (a b : Option Text) (c : Text) → (a or_else b or_else some c) ≡ some (preferred a b c)
preferred-or_else (some a) b c = refl
preferred-or_else none (some b) c = refl
preferred-or_else none none c = refl

file_values-read :
    (os : TargetOs) (fs : FileSystem) (overrides : ConfigOverrides) (environment : Environment)
    (path root requester : Text) (rows : List Line)
    → config_path os overrides environment ≡ some path
    → fs.read_to_string path ≡ ok (print rows)
    → All IsPlain rows
    → Sets rows no_values (record { root = some root; requester = some requester })
    → file_values os fs overrides environment
      ≡ ok (record { root = some root; requester = some requester })
unfolding file_values
file_values-read os fs overrides environment path root requester rows h k n m =
    rw (h, file_values) (rw (k, read_values) (parse_file-print path rows _ n m))

-- With a readable configuration file that sets the root and the requester, once each and in either
-- order, as `root = "…"` and `requester = "…"`, among any comments and blank lines, loading comes to a
-- configuration or an invalid requester, never to `NotInitialized`: the root and the requester are the
-- request's, else the environment's, else the file's, and the requester is normalized. No value has a
-- line feed, no comment a carriage return, each line ends in a line feed and starts without blanks.
pub load-print :
    (os : TargetOs) (fs : FileSystem) (overrides : ConfigOverrides) (environment : Environment)
    (path root requester : Text) (rows : List Line)
    → config_path os overrides environment ≡ some path
    → fs.read_to_string path ≡ ok (print rows)
    → All IsPlain rows
    → Sets rows no_values (record { root = some root; requester = some requester })
    → load_with_environment os fs overrides environment ≡ (
        map_err invalid_requester (
          new_requester
            (preferred overrides.requester (environment (codes "BIF_REQUESTER")) requester))
        >>= λ id. ok (record {
          root = preferred overrides.root (environment (codes "BIF_ROOT")) root;
          requester = id;
          source = existing fs (some path);
        }))
unfolding load_with_environment
load-print os fs overrides environment path root requester rows h k n m =
    let values = file_values-read os fs overrides environment path root requester rows h k n m in
    rw
      (
        values,
        preferred-or_else overrides.root (environment (codes "BIF_ROOT")) root,
        preferred-or_else overrides.requester (environment (codes "BIF_REQUESTER")) requester,
        h,
      )
      refl
