-- ===== src/Storage/Maintenance/Prune.antt =====
-- Pruning the journal: what it removes, what it keeps, and what readers see of it.
use bif.Base.{
  ℕ, zero, suc, ◌+◌, ◌-◌, ◌≤◌, ◌≡◌, refl, ap, ◌∙◌, Bool, true, false, not, ◌&&◌, ◌||◌, List, [],
  ◌∷◌, Option, none, ok, err, length, arith, ltb, leb, any, list_eq, nat_eq, if◌then◌else◌,
  Bool-cases, inl, inr,
}
use bif.Base.Text.{Text, codes}
use bif.Base.Int.{pos}
use bif.Domain.Identifier.{ProjectId}
use bif.Storage.Db.{Db, JournalEntry, select}
use bif.Storage.Journal.{read_metadata, expired_coverage, select_range, in_range}
use bif.Storage.Journal.Coverage.{interval, positions, IsCovered}
use bif.Storage.Codec.{SqliteError}
use bif.Storage.Session.{read_store_state}
use bif.Storage.Maintenance.{
  Engine, is_dangling, validate_journal, validate, update_metadata, delete_covered, pruned,
  prune_opened,
}

-- a bound below every position keeps all rows
select-keep :
    (t low n : ℕ) (es : List JournalEntry)
    → t ≤ low
    → positions es ≡ interval low n
    → select (λ j. not (leb j.change_seq t)) es ≡ es
unfolding select
select-keep t low n [] h e = refl
select-keep t low zero (x ∷ es) h e = cc
select-keep t low (suc n) (x ∷ es) h e = ground (arith, select-keep t (suc low) n es)

-- what is kept of consecutive positions is consecutive
select-interval :
    (t low n : ℕ) (es : List JournalEntry)
    → low ≤ t
    → t ≤ low + n
    → positions es ≡ interval low n
    → positions (select (λ j. not (leb j.change_seq t)) es) ≡ interval t (low + n - t)
unfolding select
select-interval t low zero [] h k e = ground arith
select-interval t low (suc n) [] h k e = cc
select-interval t low zero (x ∷ es) h k e = cc
select-interval t low (suc n) (x ∷ es) h k e =
    let shift : suc low + n - t ≡ low + suc n - t = omega arith in
    elim (Bool-cases (leb (suc low) t)) [
      | inl dropped ↦ ground (arith, select-interval t (suc low) n es, shift)
      | inr kept ↦
          let at : t ≡ low = ground arith in
          ground (arith, select-keep t low (suc n) (x ∷ es) (omega arith) e, at)
    ]

-- rows at the positions of an interval are all in its range
select-all :
    (low high m n : ℕ) (es : List JournalEntry)
    → low ≤ m
    → m + n ≤ high
    → positions es ≡ interval m n
    → length (select (λ j. ltb low j.change_seq && leb j.change_seq high) es) ≡ n
unfolding select
select-all low high m zero [] h k e = refl
select-all low high m (suc n) [] h k e = cc
select-all low high m zero (x ∷ es) h k e = cc
select-all low high m (suc n) (x ∷ es) h k e = ground (arith, select-all low high (suc m) n es)

any-select :
    {A : Type 0} (p q : A → Bool) (xs : List A) → any p xs ≡ false → any p (select q xs) ≡ false
unfolding select
any-select p q [] h = refl
any-select p q (x ∷ xs) h = ground (arith, any-select p q xs)

-- Pruning keeps the journal covered, from the new floor on.
pub pruned-IsCovered :
    (t : ℕ) (db : Db)
    → IsCovered db
    → db.metadata.retention_floor ≤ t
    → t ≤ db.metadata.high_water
    → IsCovered (pruned t db)
pruned-IsCovered t db h lo hi = record {
  generation = h.generation;
  floor = hi;
  fits = h.fits;
  allocator = h.allocator;
  covers =
      select-interval t low n db.journal lo (omega (arith, h.floor)) h.covers
      ∙ ap (λ k. interval t (k - t)) total;
}
  where
    low : ℕ
    low = db.metadata.retention_floor

    n : ℕ
    n = db.metadata.high_water - low

    total : low + n ≡ db.metadata.high_water
    total = omega (arith, h.floor)

-- no retained change has lost its operation or its item
abbrev pub IsLinked : Db → Type 0
IsLinked db =
    any (λ (j : JournalEntry). ltb db.metadata.high_water j.change_seq || is_dangling db j)
      db.journal
    ≡ false

abbrev pub quiet : {S : Type 0} → S → Option SqliteError
quiet s = none

-- A covered journal with no dangling change passes `validate_journal`.
pub validate_journal_of_covered :
    (db : Db) → IsCovered db → IsLinked db → validate_journal quiet db ≡ ok tt
unfolding validate_journal read_metadata
validate_journal_of_covered db h k = ground (
  arith,
  h.generation,
  h.floor,
  h.allocator,
  k,
  select-all db.metadata.retention_floor db.metadata.high_water db.metadata.retention_floor
      (db.metadata.high_water - db.metadata.retention_floor) db.journal (omega arith)
      (omega (arith, h.floor)) h.covers,
)

validate_journal-IsLinked : (db : Db) → validate_journal quiet db ≡ ok tt → IsLinked db
unfolding validate_journal read_metadata
validate_journal-IsLinked db h = ground arith

pruned-IsLinked : (t : ℕ) (db : Db) → IsLinked db → IsLinked (pruned t db)
unfolding is_dangling
pruned-IsLinked t db k = any-select _ (λ j. not (leb j.change_seq t)) db.journal k

-- What a change of rows leaves as it was in the eyes of SQLite: it finds nothing broken, and the
-- schema and the header are the same.
pub record IsKept (engine : Engine) (db db' : Db) : Type 0 where
  pub integrity : engine.integrity_check db' ≡ codes "ok" ∷ []
  pub foreign_keys : engine.foreign_key_check db' ≡ false
  pub nonempty : engine.nonempty db' ≡ engine.nonempty db
  pub schema : engine.schema db' ≡ engine.schema db
  pub pragma : (name : Text) → engine.pragma name db' ≡ engine.pragma name db

validate-journal :
    (engine : Engine) (db : Db)
    → validate engine quiet db ≡ ok tt
    → validate_journal quiet db ≡ ok tt
unfolding validate
validate-journal engine db h = ground arith

read_store_state-pruned : (t : ℕ) (db : Db) → read_store_state (pruned t db) ≡ read_store_state db
unfolding read_store_state
read_store_state-pruned t db = refl

-- the checks of `validate` before those of the journal do not see a prune
validate-pruned :
    (engine : Engine) (t : ℕ) (db : Db)
    → validate engine quiet db ≡ ok tt
    → IsKept engine db (pruned t db)
    → validate_journal quiet (pruned t db) ≡ ok tt
    → validate engine quiet (pruned t db) ≡ ok tt
unfolding validate
validate-pruned engine t db h k journal = ground (
  arith,
  k.integrity,
  k.foreign_keys,
  k.nonempty,
  k.schema,
  k.pragma (codes "user_version"),
  k.pragma (codes "application_id"),
  read_store_state-pruned t db,
)

update_metadata-floor :
    (t : ℕ) (db : Db)
    → IsCovered db
    → db.metadata.retention_floor ≤ t
    → t ≤ db.metadata.high_water
    → update_metadata (record db.metadata { retention_floor = t }) (delete_covered t db)
      ≡ ok (pruned t db)
unfolding update_metadata
update_metadata-floor t db h lo hi = ground (arith, h.generation)

-- On a store that `validate` accepts and whose journal is covered, pruning through any bound within
-- its coverage succeeds, as long as the engine refuses no request and keeps the schema, the header
-- and its own consistency over the DELETE and the UPDATE: these break no CHECK and no trigger, and
-- the checks of the code behind them, of the migration history, the identity, the generation and the
-- journal, all pass again. The change is exactly that of the rows up to the bound and of the floor.
pub prune_opened-succeeds :
    (engine : Engine) (t : ℕ) (db : Db)
    → validate engine quiet db ≡ ok tt
    → IsCovered db
    → IsKept engine db (pruned t db)
    → db.metadata.retention_floor ≤ t
    → t ≤ db.metadata.high_water
    → prune_opened engine quiet db.metadata.generation (pos t) db ≡ ok (pruned t db)
unfolding prune_opened read_metadata
prune_opened-succeeds engine t db valid h kept lo hi =
    let linked = validate_journal-IsLinked db (validate-journal engine db valid) in
    let again = validate-pruned engine t db valid kept (
      validate_journal_of_covered (pruned t db) (pruned-IsCovered t db h lo hi)
        (pruned-IsLinked t db linked)) in
    ground (arith, valid, again, update_metadata-floor t db h lo hi, h.generation, h.floor)

select-select :
    {A : Type 0} (r q : A → Bool) (xs : List A)
    → ((x : A) → r x ≡ true → q x ≡ true)
    → select r (select q xs) ≡ select r xs
unfolding select
select-select r q [] h = refl
select-select r q (x ∷ xs) h = ground (arith, h x, select-select r q xs h)

-- A reader of the current generation, who asks up to a mark that has been reached, does not notice a
-- prune through a bound that it has covered already; one that has not is told that its coverage
-- expired.
pub select_range-pruned :
    (generation : Text) (project : ProjectId) (c hw limit t : ℕ) (db : Db)
    → generation ≡ db.metadata.generation
    → db.metadata.retention_floor ≤ t
    → c ≤ hw
    → hw ≤ db.metadata.high_water
    → select_range generation project (pos c) (pos hw) limit (pruned t db) ≡ (
        if ltb c t
        then err expired_coverage
        else select_range generation project (pos c) (pos hw) limit db)
unfolding select_range
select_range-pruned generation project c hw limit t db g lo ord hi = elim (Bool-cases (ltb c t)) [
  | inl behind ↦ ground arith
  | inr covered ↦
      let same =
        select-select (in_range project c hw) (λ j. not (leb j.change_seq t)) db.journal
          (λ j r. ground arith) in
      ground (arith, same)
]
