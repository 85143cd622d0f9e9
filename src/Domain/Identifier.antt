-- ===== src/Domain/Identifier.antt =====
-- src/domain.rs: `normalize_identifier` and the three identifier types of the macro `identifier!`.
pub mod Canonical
use bif.Base.{
  ℕ, Bool, true, false, ◌&&◌, not, List, [], ◌∷◌, ◌++◌, if◌then◌else◌, Result, ok, err, map_err,
  ◌>>=◌,
}
use bif.Base.Text.{Text, is_alphanumeric, to_upper, to_lower}

pub data InvalidIdentifier : Type 0 where
  invalid_identifier : InvalidIdentifier

pub data IdentifierCase : Type 0 where
  upper lower : IdentifierCase

abbrev pub is_empty : Text → Bool
is_empty [] = true
is_empty (c ∷ s) = false

unfoldable pub fold_case : IdentifierCase → ℕ → ℕ
unfolding to_upper to_lower
fold_case upper c = to_upper c
fold_case lower c = to_lower c

-- The loop over `input.chars()`, with the variables `normalized` and `separator_pending`.
unfoldable pub normalize_loop : IdentifierCase → Text → Text → Bool → Text
unfolding fold_case
normalize_loop identifier_case [] normalized separator_pending = normalized
normalize_loop identifier_case (c ∷ input) normalized separator_pending =
    let pushed =
      normalize_loop identifier_case input
        ((if separator_pending && not (is_empty normalized)
            then normalized ++ b'-' ∷ []
            else normalized)
          ++ fold_case identifier_case c ∷ [])
        false in
    let skipped =
      normalize_loop identifier_case input normalized
        (if is_empty normalized then separator_pending else true) in
    if is_alphanumeric c then pushed else skipped

unfoldable pub normalize_identifier : Text → IdentifierCase → Result Text InvalidIdentifier
unfolding normalize_loop
normalize_identifier input identifier_case =
    let normalized = normalize_loop identifier_case input [] false in
    if is_empty normalized then err invalid_identifier else ok normalized

pub record RequesterId : Type 0 where
  pub as_str : Text

pub record ProjectId : Type 0 where
  pub as_str : Text

pub record AssigneeId : Type 0 where
  pub as_str : Text

unfoldable pub new_requester : Text → Result RequesterId InvalidIdentifier
new_requester input = do s ← normalize_identifier input upper; ok (record { as_str = s })

unfoldable pub new_project : Text → Result ProjectId InvalidIdentifier
new_project input = do s ← normalize_identifier input lower; ok (record { as_str = s })

unfoldable pub new_assignee : Text → Result AssigneeId InvalidIdentifier
new_assignee input = do s ← normalize_identifier input lower; ok (record { as_str = s })
