-- ===== src/Storage/Db/Captures.antt =====
-- The statements of src/storage.rs that only a capture executes, on the tables of
-- migrations/0001_initial.sql.
use bif.Base.{
  ℕ, Bool, not, ◌&&◌, ◌||◌, [], ◌∷◌, ◌++◌, Option, Result, if◌then◌else◌, ◌==◌, list_eq, nat_eq,
  ltb, any, all,
}
use bif.Base.Text.{Text, is_upper, is_lower}
use bif.Base.Int.{int_eq, is_positive}
use bif.Storage.Codec.{SqliteError}
use bif.Storage.Db.{
  Db, ItemEntry, CriterionEntry, ProvenanceEntry, CounterEntry, find, update, has_length, require,
  exists, find_item, find_provenance,
}

-- `x = lower(x)` and `x = upper(x)`, which fold ASCII letters
abbrev pub lowered : Text → Bool
lowered s = all (λ c. not (is_upper c)) s

abbrev pub uppered : Text → Bool
uppered s = all (λ c. not (is_lower c)) s

abbrev pub has_project : Text → Db → Bool
has_project id db = any (λ (p : Text). p == id) db.projects

-- `INSERT OR IGNORE`: a row that breaks a constraint is left out
unfoldable pub insert_project : Text → Text → Db → Db
insert_project id created_at db = record db {
  projects =
      if not (has_project id db) && ((has_length id && lowered id) && has_length created_at)
      then db.projects ++ id ∷ []
      else db.projects;
}

abbrev pub is_counter : Text → Text → CounterEntry → Bool
is_counter requester project_id c = (c.requester == requester) && (c.project_id == project_id)

abbrev pub find_counter : Text → Text → Db → Option CounterEntry
find_counter requester project_id db = find (is_counter requester project_id) db.counters

unfoldable pub insert_counter : CounterEntry → Db → Result Db SqliteError
insert_counter c db =
    require
      ((has_length c.requester && uppered c.requester)
        && (has_project c.project_id db
            && (ltb 0 c.next_sequence && not (exists (find_counter c.requester c.project_id db)))))
      (record db { counters = db.counters ++ c ∷ [] })

-- the CHECK on the new value holds of a number that was increased
unfoldable pub update_counter : Text → Text → ℕ → Db → Db
update_counter requester project_id next db = record db {
  counters =
      update (is_counter requester project_id) (λ c. record c { next_sequence = next }) db.counters;
}

-- the UNIQUE of `items` beside its key
abbrev pub same_identity : ItemEntry → ItemEntry → Bool
same_identity a b =
    (a.columns.requester == b.columns.requester)
    && ((a.columns.project_id == b.columns.project_id)
        && (a.columns.sequence == b.columns.sequence))

-- The status, priority, assignee and revision of the INSERT are constants that pass their CHECKs.
unfoldable pub insert_item : ItemEntry → Db → Result Db SqliteError
insert_item e db =
    require
      ((has_length e.item_id
          && not (any (λ (x : ItemEntry). (x.item_id == e.item_id) || same_identity x e) db.items))
        && ((has_length e.columns.requester && uppered e.columns.requester)
            && (has_project e.columns.project_id db
                && (is_positive e.columns.sequence
                    && (has_length e.columns.title && has_length e.columns.captured_at)))))
      (record db { items = db.items ++ e ∷ [] })

unfoldable pub insert_criterion : CriterionEntry → Db → Result Db SqliteError
insert_criterion c db =
    require
      (exists (find_item c.item_id db)
        && not (
            any
              (λ (x : CriterionEntry).
                (x.item_id == c.item_id) && (x.criterion_index == c.criterion_index))
              db.criteria))
      (record db { criteria = db.criteria ++ c ∷ [] })

-- the texts of a source host pass its CHECK
unfoldable pub insert_provenance : ProvenanceEntry → Db → Result Db SqliteError
insert_provenance p db =
    require (exists (find_item p.item_id db) && not (exists (find_provenance p.item_id db)))
      (record db { provenance = db.provenance ++ p ∷ [] })
