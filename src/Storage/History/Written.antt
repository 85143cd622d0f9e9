-- ===== src/Storage/History/Written.antt =====
-- The events of a mutation fit the rows that are written for them.
use bif.Base.{
  ◌+◌, ◌^◌, ◌<◌, ◌≡◌, ◌≢◌, refl, inl, inr, List, [], ◌∷◌, ◌++◌, map, Option, none, some, ok, err,
  All, All-append, arith, >>=-eq-ok, list_eq, nat_eq, Result, subst, sym, Bool-cases, ◌==◌,
  option_eq,
}
use bif.Base.Text.{Text, codes}
use bif.Domain.Identifier.{AssigneeId, lower}
use bif.Domain.Identifier.Canonical.{IsCanonical}
use bif.Domain.Item.{Item, Revision, Priority, assignee_eq}
use bif.Domain.Triage.{
  TriageField, omitted, clear, set, Triage, triage, next_value, assignee_change, TriageChanges,
  TriageError,
}
use bif.Domain.Mutation.{
  LifecycleMutation, approve_item, ItemMutation, DomainEvent, Change, plan_lifecycle, plan_triage,
  plan, apply_mutation, commit, event_at, triage_changes, assignee_changes, priority_changes,
  note_changes,
}
use bif.Domain.Mutation as M
use bif.Storage.Codec.RoundTrip.{IsCanonicalAssignee}
use bif.Domain.Mutation.Plan.{apply_mutation-plan}
use bif.Domain.Mutation.Laws.{commit-cons, commit-nil}
use bif.Storage.History.RoundTrip.{FitsAll, IsNamed, IsWritable}

-- a canonical name that is not the one that stands for none
abbrev pub IsHandle : AssigneeId → Type 0
IsHandle a = IsCanonical lower a.as_str × (a.as_str ≢ codes "null")

abbrev pub IsAssignable : Option AssigneeId → Type 0
IsAssignable none = Unit
IsAssignable (some a) = IsHandle a

abbrev pub AssignsField : TriageField AssigneeId → Type 0
AssignsField (set a) = IsHandle a
AssignsField _ = Unit

abbrev pub Assigns : Option Triage → Type 0
Assigns none = Unit
Assigns (some t) = AssignsField t.assignee

-- a change whose values are of its type, and name nobody as none
abbrev IsRecordable : Change → Type 0
IsRecordable c =
    FitsAll c.event_type c.before
    × FitsAll c.event_type c.after
    × IsNamed c.before
    × IsNamed c.after

plan_lifecycle-IsRecordable :
    (m : Option LifecycleMutation) (item planned : Item) (cs : List Change)
    → plan_lifecycle m item ≡ ok (planned, cs)
    → All IsRecordable cs × (planned.assignee ≡ item.assignee)
unfolding plan_lifecycle
plan_lifecycle-IsRecordable none item planned cs h = ground arith
plan_lifecycle-IsRecordable (some approve_item) item planned cs h = ground arith
plan_lifecycle-IsRecordable (some _) item planned cs h = ground arith

next_value-IsAssignable :
    (f : TriageField AssigneeId) (a : Option AssigneeId)
    → IsAssignable a
    → AssignsField f
    → IsAssignable (next_value f a)
next_value-IsAssignable omitted a h k = h
next_value-IsAssignable clear a h k = tt
next_value-IsAssignable (set b) a h k = k

IsAssignable-recordable :
    (a : Option AssigneeId) → IsAssignable a → IsCanonicalAssignee a × IsNamed (some (M.assignee a))
IsAssignable-recordable none h = (tt, tt)
IsAssignable-recordable (some a) h = h

assignee_changes-IsRecordable :
    (old new : Option AssigneeId)
    → IsAssignable old
    → IsAssignable new
    → All IsRecordable (assignee_changes (assignee_change old new))
assignee_changes-IsRecordable old new h k =
    let (a, b) = IsAssignable-recordable old h in
    let (c, d) = IsAssignable-recordable new k in
    elim (Bool-cases (new == old)) [ inl e ↦ rw e tt | inr e ↦ rw e ((a, c, b, d), tt) ]

priority_changes-IsRecordable :
    (p : Option (Option Priority × Option Priority)) → All IsRecordable (priority_changes p)
priority_changes-IsRecordable none = tt
priority_changes-IsRecordable (some (before, after)) = ((tt, tt, tt, tt), tt)

note_changes-IsRecordable : (n : Option Text) → All IsRecordable (note_changes n)
note_changes-IsRecordable none = tt
note_changes-IsRecordable (some text) = ((tt, tt, tt, tt), tt)

triage-IsRecordable :
    (t : Triage) (item next : Item) (c : TriageChanges)
    → IsAssignable item.assignee
    → AssignsField t.assignee
    → triage t item ≡ (next, ok c)
    → All IsRecordable (triage_changes c)
triage-IsRecordable t item next c h k e =
    let new = next_value t.assignee item.assignee in
    let to : c.assignee ≡ assignee_change item.assignee new = unfold triage in ground arith in
    All-append IsRecordable (priority_changes c.priority) _
      (priority_changes-IsRecordable c.priority)
      (All-append IsRecordable (assignee_changes c.assignee) _
        (rw to (
          assignee_changes-IsRecordable item.assignee new h
            (next_value-IsAssignable t.assignee item.assignee h k)))
        (note_changes-IsRecordable c.note))

plan_triage-IsRecordable :
    (t : Option Triage) (item planned : Item) (cs ds : List Change)
    → IsAssignable item.assignee
    → Assigns t
    → All IsRecordable cs
    → plan_triage t item cs ≡ ok (planned, ds)
    → All IsRecordable ds
unfolding plan_triage
plan_triage-IsRecordable none item planned cs ds h k a e = subst (All IsRecordable) (ground arith) a
plan_triage-IsRecordable (some t) item planned cs ds h k a e = by_outcome (triage t item) refl
  where
    by_outcome :
        (o : Item × Result TriageChanges TriageError) → triage t item ≡ o → All IsRecordable ds
    by_outcome (next, err x) o = absurd (ground arith)
    by_outcome (next, ok c) o =
        let to : cs ++ triage_changes c ≡ ds = ground arith in
        subst (All IsRecordable) to (
          All-append IsRecordable cs (triage_changes c) a (triage-IsRecordable t item next c h k o))

plan-IsRecordable :
    (m : ItemMutation) (item planned : Item) (cs : List Change)
    → IsAssignable item.assignee
    → Assigns m.triage
    → plan m item ≡ ok (planned, cs)
    → All IsRecordable cs
unfolding plan
plan-IsRecordable m item planned cs h k e =
    let ((mid, ds), first, second) =
      >>=-eq-ok (plan_lifecycle m.lifecycle item) (λ (mid, ds). plan_triage m.triage mid ds) e in
    let (a, same) = plan_lifecycle-IsRecordable m.lifecycle item mid ds first in
    plan_triage-IsRecordable m.triage mid planned ds cs (subst IsAssignable (sym same) h) k a second

-- an event that its row gives back, at a revision
abbrev pub IsReadable : Revision → DomainEvent → Type 0
IsReadable r e = IsWritable e × IsNamed e.before × IsNamed e.after × (e.item_revision ≡ r)

event_at-IsReadable :
    (r : Revision) (cs : List Change)
    → r ≢ 0
    → r < 2 ^ 63
    → All IsRecordable cs
    → All (IsReadable r) (map (event_at r) cs)
event_at-IsReadable r [] z f a = tt
event_at-IsReadable r (c ∷ cs) z f ((before, after, old, new), a) = (
  (record { revision = z; revision_fits = f; before = before; after = after }, old, new, refl),
  event_at-IsReadable r cs z f a,
)

-- the rows of a mutation's events give them back
pub apply_mutation-IsReadable :
    (m : ItemMutation) (item next : Item) (events : List DomainEvent)
    → IsAssignable item.assignee
    → Assigns m.triage
    → item.revision + 1 < 2 ^ 63
    → apply_mutation m item ≡ (next, ok events)
    → All (IsReadable (item.revision + 1)) events
apply_mutation-IsReadable m item next events h k f e =
    let (planned, cs, p, c) = apply_mutation-plan m item next events e in
    by_changes planned cs c (plan-IsRecordable m item planned cs h k p)
  where
    by_changes :
        (planned : Item) (cs : List Change)
        → commit item planned cs ≡ ok (next, events)
        → All IsRecordable cs
        → All (IsReadable (item.revision + 1)) events
    by_changes planned [] c a =
        subst (All (IsReadable (item.revision + 1))) (sym (commit-nil item planned next events c).0)
          tt
    by_changes planned (d ∷ cs) c a =
        let (_, to, evs) = commit-cons item planned next d cs events c in
        subst (All (IsReadable (item.revision + 1))) (sym evs)
          (event_at-IsReadable (item.revision + 1) (d ∷ cs) (ground arith) f a)
