-- ===== src/Config/File/Lines.antt =====
-- src/config.rs: files of settings and comments, line by line.
use bif.Base.{
  ℕ, suc, ◌≡◌, refl, ap, ◌∙◌, false, List, [], ◌∷◌, ◌++◌, none, some, ok, any, map, arith, ◌==◌,
  list_eq, nat_eq, ℕ_discrete, List-discrete, All,
}
use bif.Base.Text.{Text, codes, is_whitespace}
use bif.Base.Text.Strings.{strip_suffix, trim_start_matches, trim_end_matches, lines, lines_from}
use bif.Config.File.{FileValues, no_values, parse_line, parse_lines, parse_file, assign}
use bif.Config.File.RoundTrip.{
  setting, newline, HasNoNewline, no_newline-quote, chomp-none, lines_from-append, lines-setting,
  parse_line-root, parse_line-requester,
}

pub data Line : Type 0 where
  root_line requester_line comment_line : Text → Line
  blank_line : Line

abbrev pub show : Line → Text
show (root_line value) = setting (codes "root") value
show (requester_line value) = setting (codes "requester") value
show (comment_line t) = b'#' ∷ t
show blank_line = []

-- each line with its line feed
abbrev pub print : List Line → Text
print [] = []
print (l ∷ ls) = show l ++ newline ∷ print ls

-- no line feed in a line, and no carriage return in a comment
abbrev pub IsPlain : Line → Type 0
IsPlain (root_line value) = HasNoNewline value
IsPlain (requester_line value) = HasNoNewline value
IsPlain (comment_line t) = HasNoNewline t × (any (λ c. c == 0xd) t ≡ false)
IsPlain blank_line = Unit

-- what the lines set, if each key is set once: the values behind those before
abbrev pub Sets : List Line → FileValues → FileValues → Type 0
Sets [] before after = before ≡ after
Sets (root_line value ∷ ls) before after =
    (before.root ≡ none) × Sets ls (record before { root = some value }) after
Sets (requester_line value ∷ ls) before after =
    (before.requester ≡ none) × Sets ls (record before { requester = some value }) after
Sets (comment_line t ∷ ls) before after = Sets ls before after
Sets (blank_line ∷ ls) before after = Sets ls before after

no_return-none : (s : Text) → any (λ c. c == 0xd) s ≡ false → strip_suffix (0xd ∷ []) s ≡ none
unfolding strip_suffix
no_return-none [] h = refl
no_return-none (c ∷ s) h = ground (arith, no_return-none s)

lines-show :
    (l : Line) (rest : Text)
    → IsPlain l
    → lines_from [] (show l ++ newline ∷ rest) ≡ show l ∷ lines_from [] rest
lines-show (root_line value) rest h =
    lines-setting (codes "root") value rest (unfold ℕ_discrete in no_newline-quote value h)
lines-show (requester_line value) rest h =
    lines-setting (codes "requester") value rest (unfold ℕ_discrete in no_newline-quote value h)
lines-show (comment_line t) rest h =
    let kept = no_return-none (b'#' ∷ t) (unfold ℕ_discrete in h.1) in
    lines_from-append [] (b'#' ∷ t) rest (unfold ℕ_discrete in h.0)
    ∙ ap (λ l. l ∷ lines_from [] rest) (chomp-none (b'#' ∷ t) kept)
lines-show blank_line rest h =
    lines_from-append [] [] rest refl
    ∙ ap (λ l. l ∷ lines_from [] rest) (chomp-none [] (no_return-none [] refl))

lines-print : (ls : List Line) → All IsPlain ls → lines (print ls) ≡ map show ls
lines-print [] h = unfold lines_from in refl
lines-print (l ∷ ls) h =
    lines-show l (print ls) h.0 ∙ ap (λ rest. show l ∷ rest) (lines-print ls h.1)

parse_line-comment : (t : Text) (values : FileValues) → parse_line (b'#' ∷ t) values ≡ ok values
unfolding parse_line
parse_line-comment t values =
    let start : trim_start_matches is_whitespace (b'#' ∷ t) ≡ b'#' ∷ t =
      unfold trim_start_matches is_whitespace ℕ_discrete in refl in
    let end : trim_end_matches is_whitespace (b'#' ∷ t) ≡ b'#' ∷ trim_end_matches is_whitespace t =
      let solid : is_whitespace b'#' ≡ false = unfold is_whitespace ℕ_discrete in refl in
      unfold trim_end_matches in ground (arith, solid) in
    rw (start, end) (unfold ℕ_discrete in refl)

assign-root :
    (value : Text) (values : FileValues)
    → values.root ≡ none
    → assign (codes "root") value values ≡ ok (record values { root = some value })
unfolding ℕ_discrete List-discrete
assign-root value values h = ground (arith, h)

assign-requester :
    (value : Text) (values : FileValues)
    → values.requester ≡ none
    → assign (codes "requester") value values ≡ ok (record values { requester = some value })
unfolding ℕ_discrete List-discrete
assign-requester value values h = ground (arith, h)

parse_lines-show :
    (path : Text) (n : ℕ) (ls : List Line) (before after : FileValues)
    → Sets ls before after
    → parse_lines path n (map show ls) before ≡ ok after
unfolding parse_lines
parse_lines-show path n [] before after h = ap ok h
parse_lines-show path n (root_line value ∷ ls) before after (h, k) =
    rw (parse_line-root value before, assign-root value before h)
      (parse_lines-show path (suc n) ls (record before { root = some value }) after k)
parse_lines-show path n (requester_line value ∷ ls) before after (h, k) =
    rw (parse_line-requester value before, assign-requester value before h)
      (parse_lines-show path (suc n) ls (record before { requester = some value }) after k)
parse_lines-show path n (comment_line t ∷ ls) before after h =
    rw (parse_line-comment t before) (parse_lines-show path (suc n) ls before after h)
parse_lines-show path n (blank_line ∷ ls) before after h =
    parse_lines-show path (suc n) ls before after h

-- A file of settings in any order, each key once, with comments and blank lines anywhere, is read as what it sets.
pub parse_file-print :
    (path : Text) (ls : List Line) (values : FileValues)
    → All IsPlain ls
    → Sets ls no_values values
    → parse_file path (print ls) ≡ ok values
unfolding parse_file
parse_file-print path ls values h k =
    ap (λ rows. parse_lines path 1 rows no_values) (lines-print ls h)
    ∙ parse_lines-show path 1 ls no_values values k
