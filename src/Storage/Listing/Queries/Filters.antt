-- ===== src/Storage/Listing/Queries/Filters.antt =====
-- The filters of an item query, in SQL.
use bif.Base.{
  ◌≡◌, refl, sym, ap, ◌∙◌, true, not, ◌&&◌, ◌||◌, List, [], ◌∷◌, Option, none, some, arith,
  Bool-cases, inl, inr, ◌==◌, Eq, holds, list_eq, nat_eq, option_eq, any, if◌then◌else◌,
}
use mathlib.Core.Option
use bif.Domain.Identifier.{RequesterId, ProjectId, AssigneeId}
use bif.Domain.Item.{
  Item, Status, proposed, ready, in_progress, blocked, done, rejected, Priority, Status-discrete,
  status_eq, priority_eq, requester_eq, project_eq, assignee_eq,
}
use bif.Domain.View.{NamedView, view_eq, NamedView-discrete}
use bif.Domain.View as V
use bif.Base.Text.{Text}
use bif.Application.ReadSemantics.{
  statuses, view_statuses, narrowed, is_none_or, to_ascii_lowercase,
}
use bif.Storage.Codec.{item_columns, status_text, priority_text}
use bif.Storage.Listing.{view_predicate}

-- equality tests of equivalent equations
pub ==-iff :
    {A B : Type 0} ⦃ea : Eq A⦄ ⦃eb : Eq B⦄ (a b : A) (x y : B)
    → (a ≡ b → x ≡ y)
    → (x ≡ y → a ≡ b)
    → (a == b) ≡ (x == y)
==-iff ⦃ea⦄ ⦃eb⦄ a b x y f g = by_decisions (ea.dec a b) (eb.dec x y)
  where
    by_decisions : (d : Dec (a ≡ b)) (e : Dec (x ≡ y)) → holds d ≡ holds e
    by_decisions (yes p) (yes q) = refl
    by_decisions (yes p) (no n) = absurd (n (f p))
    by_decisions (no n) (yes q) = absurd (n (g q))
    by_decisions (no n) (no m) = refl

status_text-injective : (s t : Status) → status_text s ≡ status_text t → s ≡ t
unfolding status_text
status_text-injective s t h = ground arith

priority_text-injective : (p q : Priority) → priority_text p ≡ priority_text q → p ≡ q
unfolding priority_text
priority_text-injective p q h = ground arith

status_same : (s t : Status) → (status_text s == status_text t) ≡ (t == s)
status_same s t =
    ==-iff (status_text s) (status_text t) t s (λ e. sym (status_text-injective s t e))
      (λ e. ap status_text (sym e))

pub ==-sound : {A : Type 0} ⦃ea : Eq A⦄ (a b : A) → (a == b) ≡ true → a ≡ b
==-sound ⦃ea⦄ a b = by_decision (ea.dec a b)
  where
    by_decision : (d : Dec (a ≡ b)) → holds d ≡ true → a ≡ b
    by_decision (yes p) h = p
    by_decision (no n) h = absurd (ground arith)

==-refl : {A : Type 0} ⦃ea : Eq A⦄ (a b : A) → a ≡ b → (a == b) ≡ true
==-refl ⦃ea⦄ a b e = by_decision (ea.dec a b)
  where
    by_decision : (d : Dec (a ≡ b)) → holds d ≡ true
    by_decision (yes p) = refl
    by_decision (no n) = absurd (n e)

pub project_same : (p q : ProjectId) → (p.as_str == q.as_str) ≡ (q == p)
project_same p q =
    ==-iff p.as_str q.as_str q p (λ e. let back = sym e in λ i. record { as_str = back i })
      (λ e. ap (λ (r : ProjectId). r.as_str) (sym e))

pub requester_same : (p q : RequesterId) → (p.as_str == q.as_str) ≡ (q == p)
requester_same p q =
    ==-iff p.as_str q.as_str q p (λ e. let back = sym e in λ i. record { as_str = back i })
      (λ e. ap (λ (r : RequesterId). r.as_str) (sym e))

pub assignee_same :
    (held : Option AssigneeId) (a : AssigneeId)
    → (Option.map (λ (x : AssigneeId). x.as_str) held == some a.as_str) ≡ (held == some a)
assignee_same none a =
    ==-iff {A = Option Text} none (some a.as_str) none (some a) (λ e. cc) (λ e. cc)
assignee_same (some b) a =
    ==-iff (some b.as_str) (some a.as_str) (some b) (some a)
      (λ e. let same : b.as_str ≡ a.as_str = ground arith in λ i. some (record { as_str = same i }))
      (λ e. ap (Option.map (λ (x : AssigneeId). x.as_str)) e)

pub priority_same :
    (held : Option Priority) (p : Priority)
    → (Option.map priority_text held == some (priority_text p)) ≡ (held == some p)
priority_same none p =
    ==-iff {A = Option Text} none (some (priority_text p)) none (some p) (λ e. cc) (λ e. cc)
priority_same (some q) p =
    ==-iff (some (priority_text q)) (some (priority_text p)) (some q) (some p)
      (λ e. ap some (priority_text-injective q p (ground arith)))
      (λ e. ap (Option.map priority_text) e)

-- the status of a row is one of a list's
pub statuses_same :
    (ss : List Status) (s : Status)
    → any (λ t. status_text s == status_text t) ss ≡ any (λ t. t == s) ss
statuses_same [] s = refl
statuses_same (t ∷ ss) s = ground (arith, status_same s t, statuses_same ss s)

pub narrowed-any :
    (fs : Option Status) (ss : List Status) (s : Status)
    → any (λ t. t == s) (narrowed fs ss)
      ≡ (any (λ t. t == s) ss && is_none_or (λ t. status_text s == status_text t) fs)
narrowed-any none ss s = ground arith
narrowed-any (some t) [] s = refl
narrowed-any (some t) (u ∷ ss) s =
    let rest = narrowed-any (some t) ss s in
    let text = status_same s t in
    elim (Bool-cases (u == t)) [
      | inl hit ↦ let same = ap (λ x. x == s) (==-sound u t hit) in ground arith
      | inr miss ↦
          let apart : (u == s) ≡ true → (t == s) ≡ true → (u == t) ≡ true =
            λ h k. ==-refl u t (==-sound u s h ∙ sym (==-sound t s k)) in
          ground arith
    ]

open_statuses :
    (s : Status) → not ((done == s) || (rejected == s)) ≡ any (λ t. t == s) (view_statuses V.mine)
unfolding Status-discrete
open_statuses proposed = refl
open_statuses ready = refl
open_statuses in_progress = refl
open_statuses blocked = refl
open_statuses done = refl
open_statuses rejected = refl

pub all_statuses : (s : Status) → any (λ t. t == s) statuses ≡ true
unfolding Status-discrete
all_statuses proposed = refl
all_statuses ready = refl
all_statuses in_progress = refl
all_statuses blocked = refl
all_statuses done = refl
all_statuses rejected = refl

-- the statuses of a view, and the assignee of the view `mine`
pub view_predicate-statuses :
    (view : NamedView) (r : RequesterId) (item : Item)
    → view_predicate view r (item_columns item) ≡ (
        any (λ t. t == item.status) (view_statuses view)
        && (if view == V.mine
            then (item_columns item).assignee == some (to_ascii_lowercase r.as_str)
            else true))
unfolding view_predicate item_columns status_text NamedView-discrete
view_predicate-statuses V.proposed r item = ground (arith, status_same item.status proposed)
view_predicate-statuses V.ready r item = ground (arith, status_same item.status ready)
view_predicate-statuses V.active r item =
    ground (arith, status_same item.status in_progress, status_same item.status blocked)
view_predicate-statuses V.blocked r item = ground (arith, status_same item.status blocked)
view_predicate-statuses V.done r item = ground (arith, status_same item.status done)
view_predicate-statuses V.rejected r item = ground (arith, status_same item.status rejected)
view_predicate-statuses V.mine r item = ground (
  arith,
  status_same item.status done,
  status_same item.status rejected,
  open_statuses item.status,
)
view_predicate-statuses V.all r item = ground (arith, all_statuses item.status)
