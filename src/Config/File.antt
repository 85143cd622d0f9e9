-- ===== src/Config/File.antt =====
-- src/config.rs: the lines of a configuration file.
pub mod RoundTrip
pub mod Lines
use bif.Base.{
  ℕ, suc, Bool, true, false, ◌||◌, List, [], ◌∷◌, Option, none, some, Result, ok, err, ◌>>=◌, ok_or,
  if◌then◌else◌, ◌==◌, list_eq, nat_eq,
}
use bif.Base.Text.{Text, codes}
use bif.Base.Text.Strings.{
  split_once, strip_prefix, strip_suffix, trim, trim_start_matches, trim_end_matches, lines,
  lines_from, is_empty,
}
use bif.Config.{
  ConfigError, invalid_file, FileProblem, no_pair, not_quoted, duplicate_key, unknown_key,
}

pub record FileValues : Type 0 where
  pub root : Option Text
  pub requester : Option Text

-- `FileValues::default()`
abbrev pub no_values : FileValues
no_values = record { root = none; requester = none }

unfoldable pub parse_string : Text → Option Text
unfolding strip_prefix strip_suffix
parse_string value = elim (strip_prefix (b'"' ∷ []) value) [
  | none ↦ none
  | some rest ↦ strip_suffix (b'"' ∷ []) rest
]

abbrev pub is_none : Option Text → Bool
is_none none = true
is_none (some t) = false

-- the `match key.trim()`
abbrev pub assign : Text → Text → FileValues → Result FileValues FileProblem
assign key value values =
    if key == codes "root"
    then (if is_none values.root
        then ok (record values { root = some value })
        else err duplicate_key)
    else if key == codes "requester"
    then (if is_none values.requester
        then ok (record values { requester = some value })
        else err duplicate_key)
    else err (unknown_key key)

abbrev pub is_comment : Text → Bool
is_comment [] = false
is_comment (c ∷ s) = c == b'#'

-- the body of the loop
unfoldable pub parse_line : Text → FileValues → Result FileValues FileProblem
unfolding split_once trim_start_matches trim_end_matches parse_string
parse_line original_line values =
    let line = trim original_line in
    if is_empty line || is_comment line then ok values else (do
      (key, raw_value) ← ok_or no_pair (split_once b'=' line)
      value ← ok_or not_quoted (parse_string (trim raw_value))
      assign (trim key) value values)

abbrev pub at_line : Text → ℕ → Result FileValues FileProblem → Result FileValues ConfigError
at_line path number (ok values) = ok values
at_line path number (err problem) = err (invalid_file path problem number)

unfoldable pub parse_lines : Text → ℕ → List Text → FileValues → Result FileValues ConfigError
unfolding parse_line
parse_lines path number [] values = ok values
parse_lines path number (line ∷ rest) values =
    at_line path number (parse_line line values) >>= λ next. parse_lines path (suc number) rest next

unfoldable pub parse_file : Text → Text → Result FileValues ConfigError
unfolding lines_from parse_lines
parse_file path contents = parse_lines path 1 (lines contents) no_values
