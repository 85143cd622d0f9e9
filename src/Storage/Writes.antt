-- ===== src/Storage/Writes.antt =====
-- The store under any sequence of captures and mutations.
use bif.Base.{◌+◌, ◌≡◌, Bool-cases, inl, inr, sym, List, [], ◌∷◌, Option, ok, err, subst, All}
use bif.Base.Text.{Text}
use bif.Domain.Item.{Item, Timestamp, set_updated_at}
use bif.Domain.Item.Display.{display, IsCanonicalId}
use bif.Application.Request.{MutationResult, CaptureResult}
use bif.Storage.Codec.{SqliteError}
use bif.Storage.Db.{Db, CounterEntry, ItemEntry, update, is_item}
use bif.Storage.Session.{ReadStoreState}
use bif.Storage.Journal.Coverage.{IsCovered}
use bif.Storage.Capture.{capture_inner}
use bif.Storage.Capture as C
use bif.Storage.Capture.Answers as CA
use bif.Storage.Capture.Numbering.{Numbered, IsNumbered, capture_inner-IsNumbered}
use bif.Storage.Mutate.{mutate, item_update}
use bif.Storage.Mutate as M
use bif.Storage.Mutate.Commit.{committed}
use bif.Storage.Mutate.Answers as MA

Numbered-item_update :
    (cs : List CounterEntry) (item : Item) (t : Timestamp) (id : Text) (es : List ItemEntry)
    → All (Numbered cs) es
    → All
        (Numbered cs)
        (update (is_item id) (λ e. record e { columns = item_update item t e.columns }) es)
unfolding update item_update
Numbered-item_update cs item t id [] a = tt
Numbered-item_update cs item t id (e ∷ es) a = (
  elim (Bool-cases (is_item id e)) [ inl hit ↦ rw hit a.0 | inr miss ↦ rw miss a.0 ],
  Numbered-item_update cs item t id es a.1,
)

mutate-IsNumbered :
    (fault : M.Statement → Option SqliteError) (pinned : ReadStoreState) (call : M.Call)
    (db after : Db) (outcome : M.Outcome MutationResult)
    → IsCovered db
    → IsNumbered db
    → mutate fault pinned call db ≡ (after, outcome)
    → IsCovered after × IsNumbered after
mutate-IsNumbered fault pinned call db after (err e) c n h =
    let same = sym (MA.mutate_err_unchanged fault pinned call db after e h) in
    (subst IsCovered same c, subst IsNumbered same n)
mutate-IsNumbered fault pinned call db after (ok result) c n h =
    let (_, (next, to, answers)) = MA.mutate-ok fault pinned call db after result c h in
    subst (λ d. IsCovered d × IsNumbered d) (sym to) (by_answer next answers)
  where
    by_answer :
        (next : Option Db)
        → MA.Answers fault call db result next
        → IsCovered (MA.left db next) × IsNumbered (MA.left db next)
    by_answer next (inl (_, same)) =
        subst (λ x. IsCovered (MA.left db x) × IsNumbered (MA.left db x)) (sym same) (c, n)
    by_answer next (inr (inl (_, same))) =
        subst (λ x. IsCovered (MA.left db x) × IsNumbered (MA.left db x)) (sym same) (c, n)
    by_answer next (inr (inr (planned, events, _, _, _, (i, _, _, commits, covered)))) =
        let new = set_updated_at call.occurred_at planned in
        let numbered : IsNumbered
            (committed call new events (db.metadata.high_water + 1) i.columns.project_id db) =
          record {
            items =
                Numbered-item_update db.counters new call.occurred_at (display new.id) db.items
                  n.items;
            counters = n.counters;
          } in
        subst (λ x. IsCovered (MA.left db x) × IsNumbered (MA.left db x)) (sym commits)
          (covered, numbered)

capture_inner-IsCovered :
    (fault : C.Statement → Option SqliteError) (pinned : ReadStoreState) (call : C.Call)
    (db after : Db) (outcome : C.Outcome CaptureResult)
    → IsCovered db
    → capture_inner fault pinned call db ≡ (after, outcome)
    → IsCovered after
capture_inner-IsCovered fault pinned call db after (err stop) c h =
    subst IsCovered (sym (CA.capture_inner_err_unchanged fault pinned call db after stop h)) c
capture_inner-IsCovered fault pinned call db after (ok result) c h =
    let (_, (next, to, answers)) = CA.capture_inner-ok fault pinned call db after result c h in
    subst IsCovered (sym to) (by_answer next answers)
  where
    by_answer : (next : Option Db) → CA.Answers call db result next → IsCovered (CA.left db next)
    by_answer next (inl (_, same)) = subst (λ x. IsCovered (CA.left db x)) (sym same) c
    by_answer next (inr (_, _, _, wrote)) =
        let (_, commits, _, covered) = wrote in
        subst (λ x. IsCovered (CA.left db x)) (sym commits) covered

-- the stores that captures of canonical ids and mutations lead to, however each of them ends
pub data Writes : Db → Db → Type 0 where
  start : {db : Db} → Writes db db
  captures :
      {first db after : Db} (fault : C.Statement → Option SqliteError) (pinned : ReadStoreState)
      (call : C.Call) (outcome : C.Outcome CaptureResult)
      → Writes first db
      → IsCanonicalId (CA.new_item call db).id
      → capture_inner fault pinned call db ≡ (after, outcome)
      → Writes first after
  mutates :
      {first db after : Db} (fault : M.Statement → Option SqliteError) (pinned : ReadStoreState)
      (call : M.Call) (outcome : M.Outcome MutationResult)
      → Writes first db
      → mutate fault pinned call db ≡ (after, outcome)
      → Writes first after

-- Any sequence of captures of canonical ids and of mutations, whatever fails in it, keeps the journal
-- covered and the items numbered: each row is that of an id that its key spells, below the counter of
-- its requester and project, and no counter leaves the range of an INTEGER.
pub Writes-IsNumbered :
    (first last : Db)
    → Writes first last
    → IsCovered first
    → IsNumbered first
    → IsCovered last × IsNumbered last
Writes-IsNumbered first _ start c n = (c, n)
Writes-IsNumbered first last (captures {db = db} fault pinned call outcome before canonical h) c n =
    let (covered, numbered) = Writes-IsNumbered first db before c n in
    (
      capture_inner-IsCovered fault pinned call db last outcome covered h,
      capture_inner-IsNumbered fault pinned call db last outcome covered numbered canonical h,
    )
Writes-IsNumbered first last (mutates {db = db} fault pinned call outcome before h) c n =
    let (covered, numbered) = Writes-IsNumbered first db before c n in
    mutate-IsNumbered fault pinned call db last outcome covered numbered h
