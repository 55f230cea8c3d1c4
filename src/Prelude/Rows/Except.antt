-- ===== src/Prelude/Rows/Except.antt =====
-- Counts without the row of one key: what a write or a deletion of that row leaves.
use Prim.Native.Nat.{ℕ, ◌+◌, ◌≤◌}
use mathlib.Core.Path.{◌≡◌, refl, subst}
use mathlib.Core.Logic.{◌≢◌, inl, inr}
use mathlib.Core.Bool.{Bool, not, ◌&&◌}
use mathlib.Core.Option.{some}
use mathlib.Core.List.{List, [], ◌∷◌}
use native.Mathlib.Omega.{arith}
use zhiwei_backend.Prelude.Tests.{◌==◌, Bool-cases, ==_iff}
use zhiwei_backend.Prelude.Rows.{count, get, put, delete}
use zhiwei_backend.Prelude.Rows.Laws.{bit, Absent, Distinct, AllBelow, ids, count-put}

module _ {R : Type 0} (id : R → ℕ) where
  abbrev pub except : ℕ → (R → Bool) → R → Bool
  except i p r = p r && not (id r == i)

  count-except-Absent :
      (p : R → Bool) (i : ℕ) (rows : List R)
      → Absent i (ids id rows)
      → count (except i p) rows ≡ count p rows
  count-except-Absent p i [] h = refl
  count-except-Absent p i (x ∷ rows) h = ground (arith, count-except-Absent p i rows h.1, h.0)

  -- A count is that of the other rows and that of the row with the key.
  pub count-except :
      (p : R → Bool) (i : ℕ) (b : R) (rows : List R)
      → Distinct (ids id rows)
      → get id i rows ≡ some b
      → count p rows ≡ count (except i p) rows + bit (p b)
  count-except p i b [] d e = cc
  count-except p i b (x ∷ rows) d e = elim (Bool-cases (id x == i)) [
    | inl same ↦
        let e' : id x ≡ i = (==_iff (id x) i).0 same in
        let absent : Absent i (ids id rows) = subst (λ (k : ℕ). Absent k (ids id rows)) e' d.0 in
        ground (arith, count-except-Absent p i rows absent)
    | inr other ↦ ground (arith, count-except p i b rows d.1)
  ]

  -- A write of the row of `a` leaves the counts of the others.
  pub count-except-put :
      (p : R → Bool) (a : R) (rows : List R)
      → count (except (id a) p) (put id a rows) ≡ count (except (id a) p) rows
  count-except-put p a [] = refl
  count-except-put p a (x ∷ rows) = ground (arith, count-except-put p a rows)

  pub count-delete :
      (p : R → Bool) (i : ℕ) (rows : List R) → count p (delete id i rows) ≡ count (except i p) rows
  count-delete p i [] = refl
  count-delete p i (x ∷ rows) = ground (arith, count-delete p i rows)

  pub count-except_le :
      (p : R → Bool) (i : ℕ) (rows : List R) → count (except i p) rows ≤ count p rows
  count-except_le p i [] = omega arith
  count-except_le p i (x ∷ rows) = ground (arith, count-except_le p i rows)

  Absent-delete :
      (i j : ℕ) (rows : List R) → Absent j (ids id rows) → Absent j (ids id (delete id i rows))
  Absent-delete i j [] h = tt
  Absent-delete i j (x ∷ rows) h = elim (Bool-cases (id x == i)) [
    | inl e ↦ rw e (Absent-delete i j rows h.1)
    | inr e ↦ rw e (h.0, Absent-delete i j rows h.1)
  ]

  pub Distinct-delete :
      (i : ℕ) (rows : List R) → Distinct (ids id rows) → Distinct (ids id (delete id i rows))
  Distinct-delete i [] d = tt
  Distinct-delete i (x ∷ rows) d = elim (Bool-cases (id x == i)) [
    | inl e ↦ rw e (Distinct-delete i rows d.1)
    | inr e ↦ rw e (Absent-delete i (id x) rows d.0, Distinct-delete i rows d.1)
  ]

  pub AllBelow-delete :
      (n i : ℕ) (rows : List R) → AllBelow n (ids id rows) → AllBelow n (ids id (delete id i rows))
  AllBelow-delete n i [] h = tt
  AllBelow-delete n i (x ∷ rows) h = elim (Bool-cases (id x == i)) [
    | inl e ↦ rw e (AllBelow-delete n i rows h.1)
    | inr e ↦ rw e (h.0, AllBelow-delete n i rows h.1)
  ]

  pub get-delete : (i j : ℕ) (rows : List R) → j ≢ i → get id j (delete id i rows) ≡ get id j rows
  get-delete i j [] ne = refl
  get-delete i j (x ∷ rows) ne = ground (arith, get-delete i j rows ne, ne)

  -- The count after a write is that of the other rows and that of the new row.
  pub count-put-except :
      (p : R → Bool) (a b : R) (rows : List R)
      → Distinct (ids id rows)
      → get id (id a) rows ≡ some b
      → count p (put id a rows) ≡ count (except (id a) p) rows + bit (p a)
  count-put-except p a b rows d e =
      omega (arith, count-put id p a b rows d e, count-except p (id a) b rows d e)
