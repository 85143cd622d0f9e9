-- ===== src/Domain/Identifier/Canonical.antt =====
-- Identifiers in canonical form: tokens of folded letters and digits, with one hyphen between two.
use bif.Base.{
  ℕ, Bool, true, false, ◌&&◌, ◌||◌, not, [], ◌∷◌, ◌++◌, map, ◌↔◌, ◌∙◌, append_assoc, append-nil,
  ◌≡◌, refl, sym, ap, ◌==◌, nat_eq, if◌then◌else◌, any, ok, err, arith,
}
use bif.Base.Text.{Text, is_alphanumeric, is_digit, is_upper, is_lower, to_lower}
use bif.Domain.Identifier.{
  IdentifierCase, upper, lower, invalid_identifier, is_empty, fold_case, normalize_loop,
  normalize_identifier, RequesterId, ProjectId, AssigneeId, new_requester, new_project,
  new_assignee,
}

-- the letters and digits that a case leaves alone
abbrev pub is_folded : IdentifierCase → ℕ → Bool
is_folded upper c = is_digit c || is_upper c
is_folded lower c = is_digit c || is_lower c

-- `start` is true where a token has to begin
abbrev pub canonical_from : IdentifierCase → Bool → Text → Bool
canonical_from k start [] = not start
canonical_from k start (c ∷ s) =
    let after_hyphen = canonical_from k true s in
    let after_letter = canonical_from k false s in
    if is_folded k c then after_letter else (c == b'-' && not start) && after_hyphen

abbrev pub IsCanonical : IdentifierCase → Text → Type 0
IsCanonical k s = canonical_from k true s ≡ true

-- what the loop appends to `normalized`; `fresh` says that nothing has been appended yet
appended : IdentifierCase → Bool → Bool → Text → Text
appended k fresh pending [] = []
appended k fresh pending (c ∷ s) =
    let pushed = appended k false false s in
    let skipped = appended k fresh (if fresh then pending else true) s in
    if is_alphanumeric c
    then (if pending && not fresh then b'-' ∷ fold_case k c ∷ pushed else fold_case k c ∷ pushed)
    else skipped

is_empty-append : (xs : Text) (c : ℕ) (ys : Text) → is_empty (xs ++ c ∷ ys) ≡ false
is_empty-append [] c ys = refl
is_empty-append (x ∷ xs) c ys = refl

normalize_loop-append :
    (k : IdentifierCase) (input out : Text) (pending : Bool)
    → normalize_loop k input out pending ≡ out ++ appended k (is_empty out) pending input
unfolding normalize_loop appended
normalize_loop-append k [] out pending = sym (append-nil out)
normalize_loop-append k (c ∷ input) out pending = ground (
  arith,
  normalize_loop-append k input ((out ++ b'-' ∷ []) ++ fold_case k c ∷ []) false,
  normalize_loop-append k input (out ++ fold_case k c ∷ []) false,
  normalize_loop-append k input out (if is_empty out then pending else true),
  is_empty-append (out ++ b'-' ∷ []) (fold_case k c) [],
  is_empty-append out (fold_case k c) [],
  append_assoc (out ++ b'-' ∷ []) (fold_case k c ∷ []) (appended k false false input),
  append_assoc out (b'-' ∷ []) (fold_case k c ∷ appended k false false input),
  append_assoc out (fold_case k c ∷ []) (appended k false false input),
)

fold_case-is_folded :
    (k : IdentifierCase) (c : ℕ) → is_alphanumeric c ≡ true → is_folded k (fold_case k c) ≡ true
unfolding fold_case
fold_case-is_folded upper c h = ground arith
fold_case-is_folded lower c h = ground arith

hyphen_not_folded : (k : IdentifierCase) → is_folded k b'-' ≡ false
hyphen_not_folded upper = refl
hyphen_not_folded lower = refl

appended-canonical :
    (k : IdentifierCase) (pending : Bool) (s : Text)
    → canonical_from k false (appended k false pending s) ≡ true
unfolding appended
appended-canonical k pending [] = refl
appended-canonical k pending (c ∷ s) = ground (
  arith,
  appended-canonical k false s,
  appended-canonical k true s,
  fold_case-is_folded k c,
  hyphen_not_folded k,
)

appended_fresh :
    (k : IdentifierCase) (s : Text)
    → is_empty (appended k true false s) ≡ false
    → IsCanonical k (appended k true false s)
unfolding appended
appended_fresh k [] h = cc
appended_fresh k (c ∷ s) h =
    ground (arith, appended_fresh k s, appended-canonical k false s, fold_case-is_folded k c)

-- Whatever the input, what `normalize_identifier` returns is canonical.
pub normalize_identifier-IsCanonical :
    (input : Text) (k : IdentifierCase) {s : Text}
    → normalize_identifier input k ≡ ok s
    → IsCanonical k s
unfolding normalize_identifier
normalize_identifier-IsCanonical input k h =
    ground (arith, normalize_loop-append k input [] false, appended_fresh k input)

any-appended :
    (k : IdentifierCase) (s : Text)
    → is_empty (appended k true false s) ≡ not (any is_alphanumeric s)
unfolding appended
any-appended k [] = refl
any-appended k (c ∷ s) = ground (arith, any-appended k s)

-- An input with no letter and no digit is refused, and no other.
pub normalize_identifier-err_iff :
    (input : Text) (k : IdentifierCase)
    → (normalize_identifier input k ≡ err invalid_identifier) ↔ (any is_alphanumeric input ≡ false)
unfolding normalize_identifier
normalize_identifier-err_iff input k = (
  λ h. ground (arith, normalize_loop-append k input [] false, any-appended k input),
  λ h. ground (arith, normalize_loop-append k input [] false, any-appended k input),
)

fold_case_hyphen : (k : IdentifierCase) → fold_case k b'-' ≡ b'-'
unfolding fold_case
fold_case_hyphen upper = refl
fold_case_hyphen lower = refl

is_folded-is_alphanumeric :
    (j : IdentifierCase) (c : ℕ) → is_folded j c ≡ true → is_alphanumeric c ≡ true
is_folded-is_alphanumeric upper c h = ground arith
is_folded-is_alphanumeric lower c h = ground arith

-- A canonical text, of either case, goes through letter by letter.
appended-map :
    (j k : IdentifierCase) (s : Text)
    → canonical_from j false s ≡ true
    → appended k false false s ≡ map (fold_case k) s
unfolding appended
appended-map j k [] h = refl
appended-map j k (c ∷ []) h = ground (arith, is_folded-is_alphanumeric j c)
appended-map j k (c ∷ d ∷ s) h = ground (
  arith,
  appended-map j k (d ∷ s),
  appended-map j k s,
  is_folded-is_alphanumeric j c,
  is_folded-is_alphanumeric j d,
  fold_case_hyphen k,
)

appended-map_start :
    (j k : IdentifierCase) (s : Text)
    → IsCanonical j s
    → appended k true false s ≡ map (fold_case k) s
unfolding appended
appended-map_start j k [] h = refl
appended-map_start j k (c ∷ s) h = ground (arith, appended-map j k s, is_folded-is_alphanumeric j c)

is_empty-map :
    (f : ℕ → ℕ) (j : IdentifierCase) (s : Text) → IsCanonical j s → is_empty (map f s) ≡ false
is_empty-map f j [] h = cc
is_empty-map f j (c ∷ s) h = refl

-- A canonical text of either case normalizes to its folding.
pub normalize_identifier_of_canonical :
    (j k : IdentifierCase) (s : Text)
    → IsCanonical j s
    → normalize_identifier s k ≡ ok (map (fold_case k) s)
unfolding normalize_identifier
normalize_identifier_of_canonical j k s h = ground (
  arith,
  normalize_loop-append k s [] false,
  appended-map_start j k s h,
  is_empty-map (fold_case k) j s h,
)

fold_case_folded : (k : IdentifierCase) (c : ℕ) → is_folded k c ≡ true → fold_case k c ≡ c
unfolding fold_case
fold_case_folded upper c h = ground arith
fold_case_folded lower c h = ground arith

map-fold_case :
    (k : IdentifierCase) (start : Bool) (s : Text)
    → canonical_from k start s ≡ true
    → map (fold_case k) s ≡ s
map-fold_case k start [] h = refl
map-fold_case k start (c ∷ s) h = ground (
  arith,
  map-fold_case k true s,
  map-fold_case k false s,
  fold_case_folded k c,
  fold_case_hyphen k,
)

-- Canonical texts are exactly the texts that `normalize_identifier` returns unchanged.
pub normalize_identifier_fixed :
    (s : Text) (k : IdentifierCase) → (IsCanonical k s) ↔ (normalize_identifier s k ≡ ok s)
normalize_identifier_fixed s k = (
  λ h. normalize_identifier_of_canonical k k s h ∙ ap ok (map-fold_case k true s h),
  normalize_identifier-IsCanonical s k,
)

-- The text of a requester identifier is canonical.
pub new_requester-IsCanonical :
    (input : Text) {r : RequesterId} → new_requester input ≡ ok r → IsCanonical upper r.as_str
unfolding new_requester
new_requester-IsCanonical input {r} h =
    normalize_identifier-IsCanonical input upper {s = r.as_str} (ground arith)

-- Every requester identifier is a valid assignee identifier, in lowercase: the `expect` on
-- "a canonical requester is a valid assignee" cannot fail.
pub new_assignee-new_requester :
    (input : Text) {r : RequesterId}
    → new_requester input ≡ ok r
    → new_assignee r.as_str ≡ ok (record { as_str = map to_lower r.as_str })
unfolding new_assignee fold_case
new_assignee-new_requester input {r} h =
    rw (normalize_identifier_of_canonical upper lower r.as_str (new_requester-IsCanonical input h))
      refl

-- an identifier that is canonical is what its constructor makes of it
pub new_requester_canonical :
    (r : RequesterId) → IsCanonical upper r.as_str → new_requester r.as_str ≡ ok r
unfolding new_requester
new_requester_canonical r h = rw ((normalize_identifier_fixed r.as_str upper).0 h) refl

pub new_project_canonical :
    (p : ProjectId) → IsCanonical lower p.as_str → new_project p.as_str ≡ ok p
unfolding new_project
new_project_canonical p h = rw ((normalize_identifier_fixed p.as_str lower).0 h) refl

pub new_assignee_canonical :
    (a : AssigneeId) → IsCanonical lower a.as_str → new_assignee a.as_str ≡ ok a
unfolding new_assignee
new_assignee_canonical a h = rw ((normalize_identifier_fixed a.as_str lower).0 h) refl
