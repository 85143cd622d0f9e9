-- ===== src/Config/File/RoundTrip.antt =====
-- src/config.rs: a line that sets a key is read back.
use bif.Base.{
  ℕ, ◌≡◌, ◌≢◌, refl, sym, ap, ◌∙◌, false, ◌||◌, [], ◌∷◌, ◌++◌, none, some, any, ◌==◌, list_eq,
  nat_eq, arith, append_assoc, append-nil, Bool-cases, inl, inr, ℕ_discrete,
}
use bif.Base.Text.{Text, codes, is_whitespace}
use bif.Base.Text.Strings.{
  split_once, strip_suffix, trim, trim_start_matches, trim_end_matches, chomp, lines_from, is_empty,
}
use bif.Config.File.{FileValues, parse_string, parse_line, assign, is_comment}

abbrev pub newline : ℕ
newline = 0xa

abbrev quote : ℕ
quote = b'"'

-- `key = "value"`
abbrev pub setting : Text → Text → Text
setting key value = key ++ (codes " = " ++ (quote ∷ (value ++ quote ∷ [])))

abbrev pub HasNoNewline : Text → Type 0
HasNoNewline s = any (λ c. c == newline) s ≡ false

pub lines_from-append :
    (line xs ys : Text)
    → HasNoNewline xs
    → lines_from line (xs ++ newline ∷ ys) ≡ chomp (line ++ xs) ∷ lines_from [] ys
unfolding lines_from
lines_from-append line [] ys h = unfold ℕ_discrete in rw (append-nil line) refl
lines_from-append line (x ∷ xs) ys h = elim (Bool-cases (x == newline)) [
  | inl e ↦ absurd (ground arith)
  | inr e ↦
      rw (e, lines_from)
        (lines_from-append (line ++ x ∷ []) xs ys (ground arith)
          ∙ ap (λ l. chomp l ∷ lines_from [] ys) (append_assoc line (x ∷ []) xs))
]

append-ne-nil : (s : Text) (c : ℕ) → s ++ c ∷ [] ≢ []
append-ne-nil [] c h = cc
append-ne-nil (d ∷ s) c h = cc

-- a text that ends in a quote
strip_suffix-quote : (s : Text) → strip_suffix (quote ∷ []) (s ++ quote ∷ []) ≡ some s
unfolding strip_suffix
strip_suffix-quote [] = ground arith
strip_suffix-quote (c ∷ s) = ground (arith, strip_suffix-quote s, append-ne-nil s quote)

strip_suffix-other : (s : Text) → strip_suffix (0xd ∷ []) (s ++ quote ∷ []) ≡ none
unfolding strip_suffix
strip_suffix-other [] = ground arith
strip_suffix-other (c ∷ s) = ground (arith, strip_suffix-other s, append-ne-nil s quote)

trim_end-quote : (s : Text) → trim_end_matches is_whitespace (s ++ quote ∷ []) ≡ s ++ quote ∷ []
unfolding trim_end_matches
trim_end-quote [] = unfold is_whitespace ℕ_discrete in refl
trim_end-quote (c ∷ s) = ground (arith, trim_end-quote s, append-ne-nil s quote)

-- a line of a setting is the setting
trim_end-setting :
    (key value : Text) → trim_end_matches is_whitespace (setting key value) ≡ setting key value
trim_end-setting key value =
    let whole : (key ++ (codes " = " ++ (quote ∷ value))) ++ quote ∷ [] ≡ setting key value =
      append_assoc key (codes " = " ++ (quote ∷ value)) (quote ∷ []) in
    ap (trim_end_matches is_whitespace) (sym whole)
    ∙ trim_end-quote (key ++ (codes " = " ++ (quote ∷ value)))
    ∙ whole

quoted : (value : Text) → parse_string (quote ∷ (value ++ quote ∷ [])) ≡ some value
unfolding parse_string
quoted value = ground (arith, strip_suffix-quote value)

raw_value :
    (value : Text) → parse_string (trim (b' ' ∷ (quote ∷ (value ++ quote ∷ [])))) ≡ some value
raw_value value =
    let start : trim_start_matches is_whitespace (b' ' ∷ (quote ∷ (value ++ quote ∷ [])))
        ≡ quote ∷ (value ++ quote ∷ []) =
      unfold trim_start_matches is_whitespace ℕ_discrete in refl in
    ap (λ t. parse_string (trim_end_matches is_whitespace t)) start
    ∙ ap parse_string (trim_end-quote (quote ∷ value))
    ∙ quoted value

-- the parts of a line
parse_line-parts :
    (original_line key raw value : Text) (values : FileValues)
    → (is_empty (trim original_line) || is_comment (trim original_line)) ≡ false
    → split_once b'=' (trim original_line) ≡ some (key, raw)
    → parse_string (trim raw) ≡ some value
    → parse_line original_line values ≡ assign (trim key) value values
unfolding parse_line
parse_line-parts original_line key raw value values h k e = rw (h, k, e) refl

pub parse_line-root :
    (value : Text) (values : FileValues)
    → parse_line (setting (codes "root") value) values ≡ assign (codes "root") value values
unfolding parse_line
parse_line-root value values =
    let line = setting (codes "root") value in
    let start : trim_start_matches is_whitespace line ≡ line =
      unfold trim_start_matches is_whitespace ℕ_discrete in refl in
    let whole = ap (trim_end_matches is_whitespace) start ∙ trim_end-setting (codes "root") value in
    let starts : (is_empty line || is_comment line) ≡ false = unfold ℕ_discrete in refl in
    let halves : split_once b'=' line
        ≡ some (codes "root ", b' ' ∷ (quote ∷ (value ++ quote ∷ []))) =
      unfold split_once ℕ_discrete in refl in
    let key : trim (codes "root ") ≡ codes "root" =
      unfold trim_start_matches trim_end_matches is_whitespace ℕ_discrete in refl in
    parse_line-parts line (codes "root ") (b' ' ∷ (quote ∷ (value ++ quote ∷ []))) value values
      (ap (λ t. is_empty t || is_comment t) whole ∙ starts) (ap (split_once b'=') whole ∙ halves)
      (raw_value value)
    ∙ ap (λ k. assign k value values) key

pub parse_line-requester :
    (value : Text) (values : FileValues)
    → parse_line (setting (codes "requester") value) values
      ≡ assign (codes "requester") value values
unfolding parse_line
parse_line-requester value values =
    let line = setting (codes "requester") value in
    let start : trim_start_matches is_whitespace line ≡ line =
      unfold trim_start_matches is_whitespace ℕ_discrete in refl in
    let whole =
      ap (trim_end_matches is_whitespace) start ∙ trim_end-setting (codes "requester") value in
    let starts : (is_empty line || is_comment line) ≡ false = unfold ℕ_discrete in refl in
    let halves : split_once b'=' line
        ≡ some (codes "requester ", b' ' ∷ (quote ∷ (value ++ quote ∷ []))) =
      unfold split_once ℕ_discrete in refl in
    let key : trim (codes "requester ") ≡ codes "requester" =
      unfold trim_start_matches trim_end_matches is_whitespace ℕ_discrete in refl in
    parse_line-parts line (codes "requester ") (b' ' ∷ (quote ∷ (value ++ quote ∷ []))) value values
      (ap (λ t. is_empty t || is_comment t) whole ∙ starts) (ap (split_once b'=') whole ∙ halves)
      (raw_value value)
    ∙ ap (λ k. assign k value values) key

pub no_newline-quote : (s : Text) → HasNoNewline s → HasNoNewline (s ++ quote ∷ [])
no_newline-quote [] h = unfold ℕ_discrete in refl
no_newline-quote (c ∷ s) h = ground (arith, no_newline-quote s)

pub chomp-none : (s : Text) → strip_suffix (0xd ∷ []) s ≡ none → chomp s ≡ s
chomp-none s h = rw (h, chomp) refl

chomp-setting : (key value : Text) → chomp (setting key value) ≡ setting key value
chomp-setting key value =
    let whole : (key ++ (codes " = " ++ (quote ∷ value))) ++ quote ∷ [] ≡ setting key value =
      append_assoc key (codes " = " ++ (quote ∷ value)) (quote ∷ []) in
    let kept = strip_suffix-other (key ++ (codes " = " ++ (quote ∷ value))) in
    ap chomp (sym whole) ∙ chomp-none _ kept ∙ whole

-- one line of settings and what follows
pub lines-setting :
    (key value rest : Text)
    → HasNoNewline (setting key value)
    → lines_from [] (setting key value ++ newline ∷ rest) ≡ setting key value ∷ lines_from [] rest
lines-setting key value rest h =
    lines_from-append [] (setting key value) rest h
    ∙ ap (λ l. l ∷ lines_from [] rest) (chomp-setting key value)
