-- ===== src/Prelude/Rows.antt =====
-- A database table as the list of its rows. A `where` clause is a test on rows, `db.get` a search by
-- primary key, a flushed change of a mapped object replaces the row with the object's key.
pub mod Laws
pub mod Except
pub mod Pages
pub mod Tables
use Prim.Native.Nat.{ℕ, suc}
use mathlib.Core.Bool.{Bool}
use mathlib.Core.Option.{Option, none, some}
use mathlib.Core.List.{List, [], ◌∷◌}
use zhiwei_backend.Prelude.Tests.{◌==◌, if◌then◌else◌}
use zhiwei_backend.Prelude.Lists.{take, drop}

module _ {ℓ} {A : Type ℓ} where
  -- the rows of a `select` with a `where`
  abbrev pub select : (A → Bool) → List A → List A
  select p [] = []
  select p (x ∷ xs) = if p x then x ∷ select p xs else select p xs

  abbrev pub count : (A → Bool) → List A → ℕ
  count p [] = 0
  count p (x ∷ xs) = if p x then suc (count p xs) else count p xs

  abbrev pub find : (A → Bool) → List A → Option A
  find p [] = none
  find p (x ∷ xs) = if p x then some x else find p xs

  -- `.offset(n).limit(m)` on rows in the order of the query
  abbrev pub offset_limit : ℕ → ℕ → List A → List A
  offset_limit n m xs = take m (drop n xs)

module _ {ℓ} {R : Type ℓ} (id : R → ℕ) where
  -- `db.get(R, i)`
  abbrev pub get : ℕ → List R → Option R
  get i [] = none
  get i (x ∷ xs) = if id x == i then some x else get i xs

  -- the flush of a changed object
  abbrev pub put : R → List R → List R
  put a [] = []
  put a (x ∷ xs) = (if id x == id a then a else x) ∷ put a xs

  -- `db.delete` of the object with this key
  abbrev pub delete : ℕ → List R → List R
  delete i [] = []
  delete i (x ∷ xs) = if id x == i then delete i xs else x ∷ delete i xs
