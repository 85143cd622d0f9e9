-- ===== src/Storage/Engine.antt =====
-- rusqlite's `execute` and `query_row` as src/storage.rs calls them: the engine may refuse any
-- request for a reason of its own, and a refusal ends the method by `?`.
use bif.Base.{◌≡◌, refl, Option, none, some, Result, ok, err, ◌>>=◌, map_err, arith}
use bif.Storage.Codec.{SqliteError}

-- `fault` tells which request the engine refuses; what is not refused has the outcome of the statement
abbrev pub execute :
    {S A : Type 0} → (S → Option SqliteError) → S → Result A SqliteError → Result A SqliteError
execute fault s outcome = elim (fault s) [ none ↦ outcome | some e ↦ err e ]

pub execute-ok :
    {S A : Type 0} (fault : S → Option SqliteError) (s : S) (r : Result A SqliteError) (a : A)
    → execute fault s r ≡ ok a
    → r ≡ ok a
execute-ok fault s r a h = ground arith

-- a step of a transaction that went on: `map_err`, the engine and the statement
pub step-ok :
    {S A B F : Type 0} (fault : S → Option SqliteError) (s : S) (f : SqliteError → F)
    (r : Result A SqliteError) (k : A → Result B F) (b : B)
    → (map_err f (execute fault s r) >>= k) ≡ ok b
    → (a : A) × (r ≡ ok a) × (k a ≡ ok b)
step-ok fault s f r k b h = ground arith

pub bind-ok :
    {A B E F : Type 0} (f : E → F) (r : Result A E) (k : A → Result B F) (b : B)
    → (map_err f r >>= k) ≡ ok b
    → (a : A) × (r ≡ ok a) × (k a ≡ ok b)
bind-ok f (ok a) k b h = (a, refl, h)
bind-ok f (err e) k b h = cc
