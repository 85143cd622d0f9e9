-- ===== src/Storage/Migration/History.antt =====
-- The history that the check accepts, and what migrating makes of it.
use bif.Base.{
  ℕ, suc, ◌≤◌, ◌≡◌, ◌↔◌, refl, sym, ap, Bool, false, List, [], ◌∷◌, ◌++◌, map, Result, ok, arith,
  >>=-eq-ok, All, subst,
}
use bif.Base.Text.{Text}
use bif.Storage.Db.{MigrationRow}
use bif.Storage.Migration.{
  Migration, migrations, supported_version, check_applied, migration_prefix, count, skip,
  first_rows, MigrationError, recorded, migrate_all,
}

-- a row is the record of a migration, whenever it was applied
abbrev pub Records : MigrationRow → Migration → Type 0
Records row m = (row.version ≡ m.version) × (row.name ≡ m.name) × (row.checksum ≡ m.checksum)

-- the rows are the records of the first migrations, in order and without a gap
abbrev pub IsPrefix : List MigrationRow → List Migration → Type 0
IsPrefix [] ms = Unit
IsPrefix (row ∷ rows) [] = ⊥
IsPrefix (row ∷ rows) (m ∷ ms) = Records row m × IsPrefix rows ms

check_applied-IsPrefix :
    (top : ℕ) (rows : List MigrationRow) (ms : List Migration)
    → check_applied top rows ms ≡ ok tt
    → IsPrefix rows ms
unfolding check_applied
check_applied-IsPrefix top [] ms h = tt
check_applied-IsPrefix top (row ∷ rows) [] h = ground arith
check_applied-IsPrefix top (row ∷ rows) (m ∷ ms) h =
    ground (arith, check_applied-IsPrefix top rows ms)

check_applied_complete :
    (top : ℕ) (rows : List MigrationRow) (ms : List Migration)
    → All (λ m. m.version ≤ top) ms
    → IsPrefix rows ms
    → check_applied top rows ms ≡ ok tt
unfolding check_applied
check_applied_complete top [] ms a h = refl
check_applied_complete top (row ∷ rows) [] a h = absurd h
check_applied_complete top (row ∷ rows) (m ∷ ms) a h =
    ground (arith, check_applied_complete top rows ms a.1 h.1)

prefix-append :
    (now : Text) (rows : List MigrationRow) (ms : List Migration)
    → IsPrefix rows ms
    → IsPrefix (rows ++ map (recorded now) (skip (count rows) ms)) ms
prefix-append now [] [] h = tt
prefix-append now [] (m ∷ ms) h = ((refl, refl, refl), prefix-append now [] ms tt)
prefix-append now (row ∷ rows) [] h = h
prefix-append now (row ∷ rows) (m ∷ ms) h = (h.0, prefix-append now rows ms h.1)

count-append :
    (now : Text) (rows : List MigrationRow) (ms : List Migration)
    → IsPrefix rows ms
    → count (rows ++ map (recorded now) (skip (count rows) ms)) ≡ count ms
count-append now [] [] h = refl
count-append now [] (m ∷ ms) h = ap suc (count-append now [] ms tt)
count-append now (row ∷ rows) [] h = absurd h
count-append now (row ∷ rows) (m ∷ ms) h = ap suc (count-append now rows ms h.1)

-- one row more than there are migrations is enough to refuse
first_rows-IsPrefix :
    (rows : List MigrationRow) (ms : List Migration)
    → IsPrefix (first_rows (suc (count ms)) rows) ms
    → IsPrefix rows ms
first_rows-IsPrefix [] ms h = tt
first_rows-IsPrefix (row ∷ rows) [] h = h
first_rows-IsPrefix (row ∷ rows) (m ∷ ms) h = (h.0, first_rows-IsPrefix rows ms h.1)

first_rows_all :
    (rows : List MigrationRow) (ms : List Migration)
    → IsPrefix rows ms
    → first_rows (suc (count ms)) rows ≡ rows
first_rows_all [] ms h = refl
first_rows_all (row ∷ rows) [] h = absurd h
first_rows_all (row ∷ rows) (m ∷ ms) h = ap (◌∷◌ row) (first_rows_all rows ms h.1)

-- the check of any list of migrations whose last has the greatest version
migration_prefix-IsPrefix :
    (nonempty : Bool) (rows : List MigrationRow) (ms : List Migration) (n : ℕ)
    → All (λ m. m.version ≤ supported_version ms) ms
    → (migration_prefix nonempty rows ms ≡ ok n)
      ↔ (IsPrefix rows ms × (n ≡ count rows) × (n ≡ 0 → nonempty ≡ false))
unfolding migration_prefix
migration_prefix-IsPrefix nonempty [] ms n a =
    (λ h. (tt, ground arith, λ z. ground arith), λ h. ground arith)
migration_prefix-IsPrefix nonempty (row ∷ rows) ms n a = (
  λ h.
      let prefix = first_rows-IsPrefix (row ∷ rows) ms (
        check_applied-IsPrefix (supported_version ms) (first_rows (suc (count ms)) (row ∷ rows)) ms
          (ground arith)) in
      (prefix, ground (arith, first_rows_all (row ∷ rows) ms prefix), λ z. ground arith),
  λ h. ground (
    arith,
    first_rows_all (row ∷ rows) ms h.0,
    check_applied_complete (supported_version ms) (row ∷ rows) ms a h.0,
  ),
)

-- The history check accepts exactly the histories that record the first embedded migrations in order,
-- save the empty one in a store whose schema has objects, and returns how many migrations are applied.
pub migration_prefix_iff :
    (nonempty : Bool) (rows : List MigrationRow) (n : ℕ)
    → (migration_prefix nonempty rows migrations ≡ ok n)
      ↔ (IsPrefix rows migrations × (n ≡ count rows) × (n ≡ 0 → nonempty ≡ false))
unfolding supported_version
migration_prefix_iff nonempty rows n =
    migration_prefix-IsPrefix nonempty rows migrations n (omega arith)

-- Migrating keeps the rows that were there and leaves a complete history.
pub migrate_all_complete :
    (validate : List MigrationRow → Result (Unit {0}) MigrationError) (now : Text) (nonempty : Bool)
    (rows after : List MigrationRow)
    → migrate_all validate now nonempty migrations rows ≡ ok after
    → IsPrefix after migrations
      × (count after ≡ 4)
      × ((new : List MigrationRow) × (after ≡ rows ++ new))
unfolding migrate_all
migrate_all_complete validate now nonempty rows after h =
    let (n, p, e) = >>=-eq-ok (migration_prefix nonempty rows migrations) _ h in
    let (prefix, at, _) = (migration_prefix_iff nonempty rows n).0 p in
    let new = λ (k : ℕ). map (recorded now) (skip k migrations) in
    let eq : after ≡ rows ++ new (count rows) = ground arith in
    subst
      (λ x.
        IsPrefix x migrations × (count x ≡ 4) × ((rest : List MigrationRow) × (x ≡ rows ++ rest)))
      (sym eq)
      (
        prefix-append now rows migrations prefix,
        count-append now rows migrations prefix,
        (new (count rows), refl),
      )
