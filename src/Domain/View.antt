-- ===== src/Domain/View.antt =====
-- src/domain.rs: the named views and their texts.
use bif.Base.{
  Result, ok, err, if◌then◌else◌, ◌==◌, list_eq, nat_eq, ◌≡◌, ◌↔◌, refl, ap, ◌∙◌, arith, Eq,
  List-discrete, ℕ_discrete,
}
use bif.Base.Text.{Text, codes}

pub data NamedView : Type 0 where
  proposed ready active blocked done rejected mine all : NamedView

unfoldable pub NamedView-discrete : Discrete NamedView
NamedView-discrete = hlevel

instance abbrev pub view_eq : Eq NamedView
view_eq = record { dec = NamedView-discrete }

pub data InvalidNamedView : Type 0 where
  invalid_named_view : Text → InvalidNamedView

unfoldable pub as_str : NamedView → Text
as_str proposed = codes "proposed"
as_str ready = codes "ready"
as_str active = codes "active"
as_str blocked = codes "blocked"
as_str done = codes "done"
as_str rejected = codes "rejected"
as_str mine = codes "mine"
as_str all = codes "all"

unfoldable pub from_str : Text → Result NamedView InvalidNamedView
from_str input =
    if input == codes "proposed"
    then ok proposed
    else if input == codes "ready"
    then ok ready
    else if input == codes "active"
    then ok active
    else if input == codes "blocked"
    then ok blocked
    else if input == codes "done"
    then ok done
    else if input == codes "rejected"
    then ok rejected
    else if input == codes "mine"
    then ok mine
    else if input == codes "all"
    then ok all
    else err (invalid_named_view input)

from_str-as_str : (v : NamedView) → from_str (as_str v) ≡ ok v
unfolding from_str as_str List-discrete ℕ_discrete
from_str-as_str proposed = refl
from_str-as_str ready = refl
from_str-as_str active = refl
from_str-as_str blocked = refl
from_str-as_str done = refl
from_str-as_str rejected = refl
from_str-as_str mine = refl
from_str-as_str all = refl

-- A text names a view exactly if it is the text that the view is written with.
pub from_str_iff : (input : Text) (v : NamedView) → (from_str input ≡ ok v) ↔ (input ≡ as_str v)
unfolding from_str as_str
from_str_iff input v = (λ h. ground arith, λ e. ap from_str e ∙ from_str-as_str v)
