-- ===== src/Config/Remotes/Spelling.antt =====
-- src/config.rs: the spellings of a path that `normalize_remote_identity` takes for one.
use bif.Base.{
  ℕ, zero, suc, ◌≡◌, ◌≢◌, ◌⊎◌, inl, inr, refl, sym, ap, ◌∙◌, false, [], ◌∷◌, ◌++◌, append-nil, none,
  some, ◌==◌, list_eq, nat_eq, arith, length, length-append, Bool-cases, ℕ_discrete, List-discrete,
}
use bif.Base.Text.{Text, codes, to_lower}
use bif.Base.Text.Strings.{
  to_ascii_lowercase, strip_prefix, strip_suffix, trim_start_matches, trim_end_matches,
  trim_matches, slash,
}
use bif.Config.Remotes.{is_slash, without_suffix, normal_path}

abbrev git : Text
git = codes ".git"

abbrev pub slashes : ℕ → Text
slashes zero = []
slashes (suc n) = slash ∷ slashes n

-- the path of a repository: in lower case, without slashes around it and without the suffix
pub record IsCore (core : Text) : Type 0 where
  pub nonempty : core ≢ []
  pub front : strip_prefix (slash ∷ []) core ≡ none
  pub back : trim_end_matches is_slash core ≡ core
  pub bare : strip_suffix git core ≡ none

-- a spelling of it: in any case, with slashes in front, with the suffix or without
abbrev pub Spells : Text → Text → Type 0
Spells core path =
    (n : ℕ) × ((to_ascii_lowercase path ≡ slashes n ++ core)
      ⊎ (to_ascii_lowercase path ≡ slashes n ++ (core ++ git)))

to_lower-slash : (c : ℕ) → is_slash (to_lower c) ≡ is_slash c
unfolding to_lower
to_lower-slash c = ground arith

lower-trim_start :
    (s : Text)
    → to_ascii_lowercase (trim_start_matches is_slash s)
      ≡ trim_start_matches is_slash (to_ascii_lowercase s)
unfolding trim_start_matches
lower-trim_start [] = refl
lower-trim_start (c ∷ s) = ground (arith, to_lower-slash c, lower-trim_start s)

lower-trim_end :
    (s : Text)
    → to_ascii_lowercase (trim_end_matches is_slash s)
      ≡ trim_end_matches is_slash (to_ascii_lowercase s)
unfolding trim_end_matches
lower-trim_end [] = refl
lower-trim_end (c ∷ s) = ground (arith, to_lower-slash c, lower-trim_end s)

trim_start-slashes :
    (n : ℕ) (s : Text)
    → trim_start_matches is_slash (slashes n ++ s) ≡ trim_start_matches is_slash s
unfolding trim_start_matches ℕ_discrete
trim_start-slashes zero s = refl
trim_start-slashes (suc n) s = trim_start-slashes n s

trim_start-front :
    (core rest : Text)
    → core ≢ []
    → strip_prefix (slash ∷ []) core ≡ none
    → trim_start_matches is_slash (core ++ rest) ≡ core ++ rest
unfolding trim_start_matches strip_prefix
trim_start-front [] rest h e = absurd (h refl)
trim_start-front (c ∷ s) rest h e = ground arith

trim_end-append :
    (xs ys : Text)
    → ys ≢ []
    → trim_end_matches is_slash ys ≡ ys
    → trim_end_matches is_slash (xs ++ ys) ≡ xs ++ ys
unfolding trim_end_matches
trim_end-append [] ys h e = e
trim_end-append (x ∷ []) [] h e = absurd (h refl)
trim_end-append (x ∷ []) (y ∷ ys) h e = ground (arith, trim_end-append [] (y ∷ ys) h e)
trim_end-append (x ∷ z ∷ xs) ys h e = ground (arith, trim_end-append (z ∷ xs) ys h e)

longer : (x : ℕ) (xs p : Text) → ((x ∷ xs ++ p) == p) ≡ false
longer x xs p = elim (Bool-cases ((x ∷ xs ++ p) == p)) [
  | inr no' ↦ no'
  | inl same ↦
      let e : x ∷ xs ++ p ≡ p = ground arith in
      absurd (omega (arith, ap length e, length-append {0} xs p))
]

strip_suffix-append : (xs : Text) → strip_suffix git (xs ++ git) ≡ some xs
unfolding strip_suffix ℕ_discrete List-discrete
strip_suffix-append [] = refl
strip_suffix-append (x ∷ xs) = rw (longer x xs git, strip_suffix) (rw (strip_suffix-append xs) refl)

-- a text between the slashes is what is left of it in lower case
lower-trim :
    (n : ℕ) (path inner : Text)
    → to_ascii_lowercase path ≡ slashes n ++ inner
    → trim_start_matches is_slash inner ≡ inner
    → trim_end_matches is_slash inner ≡ inner
    → to_ascii_lowercase (trim_matches is_slash path) ≡ inner
lower-trim n path inner e start end =
    lower-trim_end (trim_start_matches is_slash path)
    ∙ ap (trim_end_matches is_slash) (
        lower-trim_start path
        ∙ ap (trim_start_matches is_slash) e
        ∙ trim_start-slashes n inner
        ∙ start)
    ∙ end

git-end : trim_end_matches is_slash git ≡ git
unfolding trim_end_matches ℕ_discrete
git-end = refl

-- every spelling of a path has the normal form that is the path
pub normal_path-Spells :
    (core path : Text) → IsCore core → Spells core path → normal_path path ≡ core
unfolding normal_path
normal_path-Spells core path h (n, inl plain) =
    let start : trim_start_matches is_slash core ≡ core =
      ap (trim_start_matches is_slash) (sym (append-nil core))
      ∙ trim_start-front core [] h.nonempty h.front
      ∙ append-nil core in
    rw (lower-trim n path core plain start h.back) (rw (h.bare, without_suffix) h.back)
normal_path-Spells core path h (n, inr suffixed) =
    let start = trim_start-front core git h.nonempty h.front in
    let end = trim_end-append core git (λ e. cc) git-end in
    rw (lower-trim n path (core ++ git) suffixed start end)
      (rw (strip_suffix-append core, without_suffix) h.back)
