-- ===== src/Base/Text/Strings.antt =====
-- The methods of Rust's `str` and `Path` that take a text apart. A path is a text with `/` between
-- its names, as on Unix.
use bif.Base.{
  ℕ, Bool, true, false, not, ◌&&◌, ◌||◌, List, [], ◌∷◌, ◌++◌, Option, none, some, any, map,
  if◌then◌else◌, ◌==◌, list_eq, nat_eq,
}
use mathlib.Core.Option
use bif.Base.Text.{Text, codes, is_whitespace, to_lower}

abbrev pub is_empty : Text → Bool
is_empty [] = true
is_empty (c ∷ s) = false

-- `str::to_ascii_lowercase`
abbrev pub to_ascii_lowercase : Text → Text
to_ascii_lowercase s = map to_lower s

-- `split_once` of a character
unfoldable pub split_once : ℕ → Text → Option (Text × Text)
split_once c [] = none
split_once c (d ∷ s) =
    if d == c then some ([], s) else Option.map (λ (a, b). (d ∷ a, b)) (split_once c s)

unfoldable pub strip_prefix : Text → Text → Option Text
strip_prefix [] s = some s
strip_prefix (c ∷ p) [] = none
strip_prefix (c ∷ p) (d ∷ s) = if c == d then strip_prefix p s else none

unfoldable pub strip_suffix : Text → Text → Option Text
strip_suffix p [] = if is_empty p then some [] else none
strip_suffix p (d ∷ s) =
    if (d ∷ s) == p then some [] else Option.map (λ rest. d ∷ rest) (strip_suffix p s)

-- `split_once` of a text that is not empty
unfoldable pub split_once_at : Text → Text → Option (Text × Text)
unfolding strip_prefix
split_once_at p [] = none
split_once_at p (d ∷ s) =
    let later = Option.map (λ (a, b). (d ∷ a, b)) (split_once_at p s) in
    elim (strip_prefix p (d ∷ s)) [ some rest ↦ some ([], rest) | none ↦ later ]

-- `rsplit(c).next()`
unfoldable pub after_last : ℕ → Text → Text
after_last c [] = []
after_last c (d ∷ s) = if any (λ x. x == c) s then after_last c s else if d == c then s else d ∷ s

-- `split(c).next()`
unfoldable pub before_first : ℕ → Text → Text
before_first c [] = []
before_first c (d ∷ s) = if d == c then [] else d ∷ before_first c s

-- `split(c)`
abbrev cons_head : ℕ → List Text → List Text
cons_head d [] = (d ∷ []) ∷ []
cons_head d (piece ∷ pieces) = (d ∷ piece) ∷ pieces

unfoldable pub split : ℕ → Text → List Text
split c [] = [] ∷ []
split c (d ∷ s) = let rest = split c s in if d == c then [] ∷ rest else cons_head d rest

unfoldable pub trim_start_matches : (ℕ → Bool) → Text → Text
trim_start_matches p [] = []
trim_start_matches p (c ∷ s) = if p c then trim_start_matches p s else c ∷ s

unfoldable pub trim_end_matches : (ℕ → Bool) → Text → Text
trim_end_matches p [] = []
trim_end_matches p (c ∷ s) =
    let rest = trim_end_matches p s in if is_empty rest && p c then [] else c ∷ rest

abbrev pub trim_matches : (ℕ → Bool) → Text → Text
trim_matches p s = trim_end_matches p (trim_start_matches p s)

abbrev pub trim : Text → Text
trim s = trim_matches is_whitespace s

-- `str::lines`: a carriage return goes with the line feed behind it
abbrev pub chomp : Text → Text
chomp line = elim (strip_suffix (0xd ∷ []) line) [ some rest ↦ rest | none ↦ line ]

unfoldable pub lines_from : Text → Text → List Text
unfolding strip_suffix
lines_from line [] = if is_empty line then [] else line ∷ []
lines_from line (c ∷ s) = elim (c == 0xa) [
  | true ↦ chomp line ∷ lines_from [] s
  | false ↦ lines_from (line ++ c ∷ []) s
]

abbrev pub lines : Text → List Text
lines s = lines_from [] s

abbrev pub slash : ℕ
slash = b'/'

abbrev pub is_absolute : Text → Bool
is_absolute [] = false
is_absolute (c ∷ s) = c == slash

-- `Path::components`, each as its text; only the root's is `/`
abbrev names : List Text → List Text
names [] = []
names (piece ∷ pieces) =
    let rest = names pieces in if is_empty piece || piece == codes "." then rest else piece ∷ rest

abbrev leading_dot : List Text → List Text
leading_dot [] = []
leading_dot (piece ∷ pieces) = if piece == codes "." then piece ∷ [] else []

unfoldable pub components : Text → List Text
unfolding split
components path =
    if is_absolute path
    then codes "/" ∷ names (split slash path)
    else leading_dot (split slash path) ++ names (split slash path)

abbrev pub is_prefix : List Text → List Text → Bool
is_prefix [] ys = true
is_prefix (x ∷ xs) [] = false
is_prefix (x ∷ xs) (y ∷ ys) = (x == y) && is_prefix xs ys

-- `path.starts_with(base)`
abbrev pub starts_with : Text → Text → Bool
starts_with path base = is_prefix (components base) (components path)

abbrev last : List Text → Option Text
last [] = none
last (x ∷ []) = some x
last (x ∷ y ∷ ys) = last (y ∷ ys)

abbrev is_name : Text → Bool
is_name piece = not (piece == codes "/" || (piece == codes "." || piece == codes ".."))

-- `Path::file_name`
unfoldable pub file_name : Text → Option Text
unfolding components
file_name path = elim (last (components path)) [
  | none ↦ none
  | some piece ↦ if is_name piece then some piece else none
]

abbrev ends_in_slash : Text → Bool
ends_in_slash [] = false
ends_in_slash (c ∷ []) = c == slash
ends_in_slash (c ∷ d ∷ s) = ends_in_slash (d ∷ s)

-- `Path::join`
unfoldable pub join : Text → Text → Text
join base path =
    if is_absolute path
    then path
    else if is_empty base || ends_in_slash base
    then base ++ path
    else base ++ (slash ∷ path)
