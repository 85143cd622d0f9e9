-- ===== src/Config/Remotes/Equivalence.antt =====
-- src/config.rs: the ways to write one hosted repository have one identity.
use bif.Base.{ℕ, ◌≡◌, false, ◌∷◌, ◌++◌, any, ◌==◌, list_eq, nat_eq}
use bif.Base.Text.{Text, codes}
use bif.Base.Text.Strings.{trim, trim_end_matches, slash}
use bif.Config.Remotes.{is_slash}

abbrev pub Lacks : ℕ → Text → Type 0
Lacks c s = any (λ d. d == c) s ≡ false

-- nothing is trimmed off a target
abbrev pub IsTidy : Text → Type 0
IsTidy target = trim_end_matches is_slash (trim target) ≡ target

abbrev separator : Text
separator = codes "://"

-- A URL, with its user, host, port and path
abbrev pub url : Text → Text → Text → Text → Text → Text
url scheme user host port path =
    scheme ++ (codes "://" ++ ((user ++ b'@' ∷ (host ++ b':' ∷ port)) ++ slash ∷ path))

-- a target in the style of scp
abbrev pub scp : Text → Text → Text → Text
scp user host path = (user ++ b'@' ∷ host) ++ b':' ∷ path
