-- ===== src/Prelude/Rows/Tables.antt =====
-- Tables with a sequence for the primary key: what inserts, writes and deletions leave of the keys, of a
-- unique constraint and of the references between two tables.
use Prim.Native.Nat.{ℕ, suc, ◌≤◌}
use mathlib.Core.Path.{◌≡◌, refl, sym, ap, ◌∙◌, subst}
use mathlib.Core.Logic.{inl, inr}
use mathlib.Core.Bool.{Bool, true}
use mathlib.Core.Option.{none, some}
use mathlib.Core.List.{List, [], ◌∷◌, ◌++◌}
use native.Mathlib.Omega.{arith}
use zhiwei_backend.Prelude.Tests.{◌==◌, if◌then◌else◌, Bool-cases, ==_iff}
use zhiwei_backend.Prelude.Rows.{count, get, put, delete}
use zhiwei_backend.Prelude.Rows.Laws.{
  bit, Absent, Distinct, AllBelow, ids, ids-put, ids-append, count-put, count-append,
  Distinct-append, get-put,
}
use zhiwei_backend.Prelude.Rows.Except.{
  count-delete, count-except_le, Distinct-delete, AllBelow-delete, get-delete,
}

-- `next_id` is the sequence of the primary key.
pub record Table (R : Type 0) : Type 0 where
  pub rows : List R
  pub next_id : ℕ

-- `db.add` and `db.flush` of a row with the next key
abbrev pub insert : {R : Type 0} → R → Table R → Table R
insert a t = record { rows = t.rows ++ a ∷ []; next_id = suc t.next_id }

-- The rows that a deletion with this condition leaves.
abbrev pub discard : {R : Type 0} → (R → Bool) → List R → List R
discard p [] = []
discard p (x ∷ xs) = if p x then discard p xs else x ∷ discard p xs

module _ {R : Type 0} (id : R → ℕ) where
  pub record IsKeyed (t : Table R) : Type 0 where
    pub distinct : Distinct (ids id t.rows)
    pub below : AllBelow t.next_id (ids id t.rows)

  pub IsKeyed-insert : (a : R) (t : Table R) → IsKeyed t → id a ≡ t.next_id → IsKeyed (insert a t)
  IsKeyed-insert a t h e =
      let new = Distinct-append t.next_id (ids id t.rows) h.distinct h.below in
      let keys : ids id (t.rows ++ a ∷ []) ≡ ids id t.rows ++ t.next_id ∷ [] =
        ids-append id t.rows a ∙ ap (λ (i : ℕ). ids id t.rows ++ i ∷ []) e in
      record {
        distinct = subst (λ (is : List ℕ). Distinct is) (sym keys) new.0;
        below = subst (λ (is : List ℕ). AllBelow (suc t.next_id) is) (sym keys) new.1;
      }

  pub IsKeyed-put :
      (a : R) (t : Table R) → IsKeyed t → IsKeyed (record t { rows = put id a t.rows })
  IsKeyed-put a t h = record {
    distinct = subst (λ (is : List ℕ). Distinct is) (sym (ids-put id a t.rows)) h.distinct;
    below = subst (λ (is : List ℕ). AllBelow t.next_id is) (sym (ids-put id a t.rows)) h.below;
  }

  pub IsKeyed-delete :
      (i : ℕ) (t : Table R) → IsKeyed t → IsKeyed (record t { rows = delete id i t.rows })
  IsKeyed-delete i t h = record {
    distinct = Distinct-delete id i t.rows h.distinct;
    below = AllBelow-delete id t.next_id i t.rows h.below;
  }

  Absent-discard :
      (p : R → Bool) (j : ℕ) (rows : List R)
      → Absent j (ids id rows)
      → Absent j (ids id (discard p rows))
  Absent-discard p j [] h = tt
  Absent-discard p j (x ∷ rows) h = elim (Bool-cases (p x)) [
    | inl e ↦ rw e (Absent-discard p j rows h.1)
    | inr e ↦ rw e (h.0, Absent-discard p j rows h.1)
  ]

  Distinct-discard :
      (p : R → Bool) (rows : List R) → Distinct (ids id rows) → Distinct (ids id (discard p rows))
  Distinct-discard p [] h = tt
  Distinct-discard p (x ∷ rows) h = elim (Bool-cases (p x)) [
    | inl e ↦ rw e (Distinct-discard p rows h.1)
    | inr e ↦ rw e (Absent-discard p (id x) rows h.0, Distinct-discard p rows h.1)
  ]

  AllBelow-discard :
      (n : ℕ) (p : R → Bool) (rows : List R)
      → AllBelow n (ids id rows)
      → AllBelow n (ids id (discard p rows))
  AllBelow-discard n p [] h = tt
  AllBelow-discard n p (x ∷ rows) h = elim (Bool-cases (p x)) [
    | inl e ↦ rw e (AllBelow-discard n p rows h.1)
    | inr e ↦ rw e (h.0, AllBelow-discard n p rows h.1)
  ]

  pub IsKeyed-discard :
      (p : R → Bool) (t : Table R) → IsKeyed t → IsKeyed (record t { rows = discard p t.rows })
  IsKeyed-discard p t h = record {
    distinct = Distinct-discard p t.rows h.distinct;
    below = AllBelow-discard t.next_id p t.rows h.below;
  }

  get-append_none :
      (i : ℕ) (a : R) (rows : List R) → get id i (rows ++ a ∷ []) ≡ none → get id i rows ≡ none
  get-append_none i a [] h = refl
  get-append_none i a (x ∷ rows) h = ground (arith, get-append_none i a rows)

  -- A write of a row that keeps what a test looks at keeps its count.
  pub count-put_same :
      (p : R → Bool) (a b : R) (t : Table R)
      → IsKeyed t
      → get id (id a) t.rows ≡ some b
      → p a ≡ p b
      → count p (put id a t.rows) ≡ count p t.rows
  count-put_same p a b t h e same =
      omega (arith, count-put id p a b t.rows h.distinct e, ap bit same)

  pub count-delete_le :
      (p : R → Bool) (i : ℕ) (rows : List R) → count p (delete id i rows) ≤ count p rows
  count-delete_le p i rows = omega (arith, count-delete id p i rows, count-except_le id p i rows)

pub count-discard_le :
    {R : Type 0} (p q : R → Bool) (rows : List R) → count p (discard q rows) ≤ count p rows
count-discard_le p q [] = omega arith
count-discard_le p q (x ∷ rows) = ground (arith, count-discard_le p q rows)

count-discard_self : {R : Type 0} (p : R → Bool) (rows : List R) → count p (discard p rows) ≡ 0
count-discard_self p [] = refl
count-discard_self p (x ∷ rows) = ground (arith, count-discard_self p rows)

-- The rows that refer to a key by this column.
abbrev pub child_of : {C : Type 0} → (C → ℕ) → ℕ → C → Bool
child_of fk i c = fk c == i

-- No child refers to a parent that is not there.
module _ {P : Type 0} {C : Type 0} (id : P → ℕ) (fk : C → ℕ) where
  abbrev pub NoOrphans : List P → List C → Type 0
  NoOrphans parents children =
      (i : ℕ) → get id i parents ≡ none → count (child_of fk i) children ≡ 0

  pub NoOrphans-parent_insert :
      (a : P) (parents : List P) (children : List C)
      → NoOrphans parents children
      → NoOrphans (parents ++ a ∷ []) children
  NoOrphans-parent_insert a parents children h i e = h i (get-append_none id i a parents e)

  pub NoOrphans-parent_put :
      (a b : P) (parents : List P) (children : List C)
      → get id (id a) parents ≡ some b
      → NoOrphans parents children
      → NoOrphans (put id a parents) children
  NoOrphans-parent_put a b parents children found h i e =
      h i (ground (arith, get-put id i a b parents found, e))

  -- A parent without children may go.
  pub NoOrphans-parent_delete :
      (k : ℕ) (parents : List P) (children : List C)
      → count (child_of fk k) children ≡ 0
      → NoOrphans parents children
      → NoOrphans (delete id k parents) children
  NoOrphans-parent_delete k parents children free h i e = elim (Bool-cases (i == k)) [
    | inl same ↦
        subst (λ (n : ℕ). count (child_of fk n) children ≡ 0) (sym ((==_iff i k).0 same)) free
    | inr other ↦ h i (sym (get-delete id k i parents (λ s. ground arith)) ∙ e)
  ]

  pub NoOrphans-child_insert :
      (c : C) (a : P) (parents : List P) (children : List C)
      → get id (fk c) parents ≡ some a
      → NoOrphans parents children
      → NoOrphans parents (children ++ c ∷ [])
  NoOrphans-child_insert c a parents children found h i e = elim (Bool-cases (fk c == i)) [
    | inl same ↦
        absurd
          (missing (sym found ∙ ap (λ (n : ℕ). get id n parents) ((==_iff (fk c) i).0 same) ∙ e))
    | inr other ↦ omega (arith, count-append (child_of fk i) children c, h i e, ap bit other)
  ]
    where
      missing : some a ≡ none → ⊥
      missing m = cc

  -- Children may go.
  pub NoOrphans-fewer :
      (parents : List P) (children fewer : List C)
      → ((i : ℕ) → count (child_of fk i) fewer ≤ count (child_of fk i) children)
      → NoOrphans parents children
      → NoOrphans parents fewer
  NoOrphans-fewer parents children fewer le h i e = omega (arith, le i, h i e)

  -- A parent goes with its children.
  pub NoOrphans-cascade :
      (k : ℕ) (parents : List P) (children : List C)
      → NoOrphans parents children
      → NoOrphans (delete id k parents) (discard (child_of fk k) children)
  NoOrphans-cascade k parents children h =
      NoOrphans-parent_delete k parents (discard (child_of fk k) children)
        (count-discard_self (child_of fk k) children)
        (NoOrphans-fewer parents children (discard (child_of fk k) children)
          (λ i. count-discard_le (child_of fk i) (child_of fk k) children) h)

-- A unique constraint: `key` tells the rows that have a value of its columns.
module _ {R : Type 0} {K : Type 0} (id : R → ℕ) (key : K → R → Bool) where
  abbrev pub Unique : List R → Type 0
  Unique rows = (k : K) → count (key k) rows ≤ 1

  -- A row with a value that no other has may come.
  pub Unique-insert :
      (k : K) (a : R) (rows : List R)
      → count (key k) rows ≡ 0
      → ((j : K) → key j a ≡ true → j ≡ k)
      → Unique rows
      → Unique (rows ++ a ∷ [])
  Unique-insert k a rows free only h j = elim (Bool-cases (key j a)) [
    | inl e ↦ omega (
      arith,
      count-append (key j) rows a,
      ap bit e,
      ap (λ (x : K). count (key x) rows) (only j e),
      free,
    )
    | inr e ↦ omega (arith, count-append (key j) rows a, ap bit e, h j)
  ]

  pub Unique-put :
      (a b : R) (t : Table R)
      → IsKeyed id t
      → get id (id a) t.rows ≡ some b
      → ((j : K) → key j a ≡ key j b)
      → Unique t.rows
      → Unique (put id a t.rows)
  Unique-put a b t keyed found same h j =
      omega (arith, count-put_same id (key j) a b t keyed found (same j), h j)

  pub Unique-delete : (i : ℕ) (rows : List R) → Unique rows → Unique (delete id i rows)
  Unique-delete i rows h j = omega (arith, count-delete_le id (key j) i rows, h j)

  pub Unique-discard : (p : R → Bool) (rows : List R) → Unique rows → Unique (discard p rows)
  Unique-discard p rows h j = omega (arith, count-discard_le (key j) p rows, h j)
