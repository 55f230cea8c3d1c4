-- ===== src/Prelude/Rows/Laws.antt =====
-- How a table's counts, keys and searches change when a row is written.
use Prim.Native.Nat.{ℕ, suc, ◌+◌, ◌≤◌, ◌<◌}
use mathlib.Core.Path.{◌≡◌, refl, sym, ap, ◌∙◌, subst}
use mathlib.Core.Logic.{◌≢◌, ◌⊎◌, inl, inr}
use mathlib.Core.Bool.{Bool, true, false}
use mathlib.Core.Option.{Option, none, some}
use mathlib.Core.List.{List, [], ◌∷◌, ◌++◌, map}
use native.Mathlib.Omega.{arith}
use zhiwei_backend.Prelude.Tests.{◌==◌, if◌then◌else◌, Bool-cases, ==_iff}
use zhiwei_backend.Prelude.Lists.{length}
use zhiwei_backend.Prelude.Outcomes.{Result, Exception, ok, err, scalar_one_or_none}
use zhiwei_backend.Prelude.Rows.{select, count, get, put}

abbrev pub bit : Bool → ℕ
bit true = 1
bit false = 0

abbrev pub Absent : ℕ → List ℕ → Type 0
Absent i [] = Unit
Absent i (j ∷ js) = (j ≢ i) × Absent i js

abbrev pub Distinct : List ℕ → Type 0
Distinct [] = Unit
Distinct (i ∷ is) = Absent i is × Distinct is

abbrev pub AllBelow : ℕ → List ℕ → Type 0
AllBelow n [] = Unit
AllBelow n (i ∷ is) = (i < n) × AllBelow n is

pub AllBelow-Absent : (n : ℕ) (is : List ℕ) → AllBelow n is → Absent n is
AllBelow-Absent n [] h = tt
AllBelow-Absent n (i ∷ is) h = ((λ e. absurd (omega (arith, e, h.0))), AllBelow-Absent n is h.1)

AllBelow-suc : (n : ℕ) (is : List ℕ) → AllBelow n is → AllBelow (suc n) is
AllBelow-suc n [] h = tt
AllBelow-suc n (i ∷ is) h = (omega (arith, h.0), AllBelow-suc n is h.1)

Absent-append : (i j : ℕ) (is : List ℕ) → Absent i is → j ≢ i → Absent i (is ++ j ∷ [])
Absent-append i j [] h ne = (ne, tt)
Absent-append i j (k ∷ is) h ne = (h.0, Absent-append i j is h.1 ne)

-- A key that is new keeps the keys distinct.
pub Distinct-append :
    (n : ℕ) (is : List ℕ)
    → Distinct is
    → AllBelow n is
    → Distinct (is ++ n ∷ []) × AllBelow (suc n) (is ++ n ∷ [])
Distinct-append n [] d b = ((tt, tt), (omega arith, tt))
Distinct-append n (i ∷ is) d b =
    let (d', b') = Distinct-append n is d.1 b.1 in
    ((Absent-append i n is d.0 (λ e. absurd (omega (arith, e, b.0))), d'), (omega (arith, b.0), b'))

module _ {ℓ} {A : Type ℓ} where
  pub length-select : (p : A → Bool) (xs : List A) → length (select p xs) ≡ count p xs
  length-select p [] = refl
  length-select p (x ∷ xs) = ground (arith, length-select p xs)

  pub count-append :
      (p : A → Bool) (xs : List A) (a : A) → count p (xs ++ a ∷ []) ≡ count p xs + bit (p a)
  count-append p [] a = ground arith
  count-append p (x ∷ xs) a = ground (arith, count-append p xs a)

module _ {ℓ} {R : Type ℓ} (id : R → ℕ) where
  abbrev pub ids : List R → List ℕ
  ids rows = map id rows

  pub ids-append : (rows : List R) (a : R) → ids (rows ++ a ∷ []) ≡ ids rows ++ id a ∷ []
  ids-append [] a = refl
  ids-append (x ∷ rows) a = ap (λ (t : List ℕ). id x ∷ t) (ids-append rows a)

  pub ids-put : (a : R) (rows : List R) → ids (put id a rows) ≡ ids rows
  ids-put a [] = refl
  ids-put a (x ∷ rows) = ground (arith, ids-put a rows)

  put-Absent : (a : R) (rows : List R) → Absent (id a) (ids rows) → put id a rows ≡ rows
  put-Absent a [] h = refl
  put-Absent a (x ∷ rows) h = ground (arith, put-Absent a rows h.1, h.0)

  -- A write of the row of `a` moves a count by what the two rows count for.
  pub count-put :
      (p : R → Bool) (a b : R) (rows : List R)
      → Distinct (ids rows)
      → get id (id a) rows ≡ some b
      → count p (put id a rows) + bit (p b) ≡ count p rows + bit (p a)
  count-put p a b [] d e = cc
  count-put p a b (x ∷ rows) d e = elim (Bool-cases (id x == id a)) [
    | inl same ↦
        let e' : id x ≡ id a = (==_iff (id x) (id a)).0 same in
        let absent : Absent (id a) (ids rows) = subst (λ (i : ℕ). Absent i (ids rows)) e' d.0 in
        ground (arith, put-Absent a rows absent)
    | inr other ↦ ground (arith, count-put p a b rows d.1)
  ]

  pub get-id : (i : ℕ) (rows : List R) (a : R) → get id i rows ≡ some a → id a ≡ i
  get-id i [] a e = cc
  get-id i (x ∷ rows) a e = ground (arith, get-id i rows a)

  pub Absent-get : (i : ℕ) (rows : List R) → Absent i (ids rows) → get id i rows ≡ none
  Absent-get i [] h = refl
  Absent-get i (x ∷ rows) h = ground (arith, Absent-get i rows h.1, h.0)

  -- The rows that a query selects are in the table under their keys.
  pub select-get :
      (p : R → Bool) (rows : List R) (a : R) (rest : List R)
      → Distinct (ids rows)
      → select p rows ≡ a ∷ rest
      → (p a ≡ true) × (get id (id a) rows ≡ some a)
  select-get p [] a rest d e = cc
  select-get p (x ∷ rows) a rest d e =
      ground (arith, select-get p rows a rest d.1, Absent-get (id x) rows d.0)

-- Tables of rows at level 0.
module _ {R : Type 0} (id : R → ℕ) where
  get-put_none :
      (i : ℕ) (a : R) (rows : List R) → id a ≢ i → get id i (put id a rows) ≡ get id i rows
  get-put_none i a [] ne = refl
  get-put_none i a (x ∷ rows) ne = ground (arith, get-put_none i a rows ne, ne)

  pub get-put :
      (i : ℕ) (a b : R) (rows : List R)
      → get id (id a) rows ≡ some b
      → get id i (put id a rows) ≡ (if id a == i then some a else get id i rows)
  get-put i a b [] e = cc
  get-put i a b (x ∷ rows) e = ground (arith, get-put i a b rows, get-put_none i a rows)

  -- A row with a new key is found under it.
  pub get-append_new :
      (a : R) (rows : List R)
      → Absent (id a) (ids id rows)
      → get id (id a) (rows ++ a ∷ []) ≡ some a
  get-append_new a [] h = ground arith
  get-append_new a (x ∷ rows) h = ground (arith, get-append_new a rows h.1, h.0)

  pub get-append_ne :
      (i : ℕ) (a : R) (rows : List R) → id a ≢ i → get id i (rows ++ a ∷ []) ≡ get id i rows
  get-append_ne i a [] h = ground arith
  get-append_ne i a (x ∷ rows) h = ground (arith, get-append_ne i a rows h)

  -- What `scalar_one_or_none` gives of a query that selects at most one row.
  pub one_or_none-cases :
      (p : R → Bool) (rows : List R)
      → Distinct (ids id rows)
      → count p rows ≤ 1
      → ((scalar_one_or_none (select p rows) ≡ ok none) × (count p rows ≡ 0))
        ⊎ ((a : R) × (scalar_one_or_none (select p rows) ≡ ok (some a))
            × (count p rows ≡ 1)
            × (p a ≡ true)
            × (get id (id a) rows ≡ some a))
  one_or_none-cases p rows d h = go (select p rows) refl
    where
      go :
          (found : List R)
          → select p rows ≡ found
          → ((scalar_one_or_none (select p rows) ≡ ok none) × (count p rows ≡ 0))
            ⊎ ((a : R) × (scalar_one_or_none (select p rows) ≡ ok (some a))
                × (count p rows ≡ 1)
                × (p a ≡ true)
                × (get id (id a) rows ≡ some a))
      go [] e = inl (ap scalar_one_or_none e, sym (length-select p rows) ∙ ap length e)
      go (a ∷ []) e =
          let (pa, ga) = select-get id p rows a [] d e in
          inr (a, ap scalar_one_or_none e, sym (length-select p rows) ∙ ap length e, pa, ga)
      go (a ∷ b ∷ rest) e = absurd (omega (arith, length-select p rows, ap length e))

module _ {A : Type 0} where
  pub none-count :
      (p : A → Bool) (rows : List A)
      → scalar_one_or_none (select p rows) ≡ ok none
      → count p rows ≡ 0
  none-count p rows h = sym (length-select p rows) ∙ go (select p rows) h
    where
      go : (found : List A) → scalar_one_or_none found ≡ ok none → length found ≡ 0
      go [] h = refl
      go (a ∷ []) h = cc
      go (a ∷ b ∷ found) h = cc

  pub found-cases :
      (r : Result (Option A))
      → (r ≡ ok none) ⊎ (((a : A) × (r ≡ ok (some a))) ⊎ ((e : Exception) × (r ≡ err e)))
  found-cases (ok none) = inl refl
  found-cases (ok (some a)) = inr (inl (a, refl))
  found-cases (err e) = inr (inr (e, refl))

  pub none-select : (p : A → Bool) (rows : List A) → count p rows ≡ 0 → select p rows ≡ []
  none-select p [] h = refl
  none-select p (x ∷ rows) h = ground (arith, none-select p rows)

  pub select-append_none :
      (p : A → Bool) (rows : List A) (a : A)
      → count p rows ≡ 0
      → p a ≡ true
      → select p (rows ++ a ∷ []) ≡ a ∷ []
  select-append_none p [] a h e = rw e refl
  select-append_none p (x ∷ rows) a h e = ground (arith, select-append_none p rows a)

module _ {R : Type 0} (id : R → ℕ) where
  pub get-count :
      (p : R → Bool) (i : ℕ) (a : R) (rows : List R)
      → get id i rows ≡ some a
      → p a ≡ true
      → 1 ≤ count p rows
  get-count p i a [] e h = cc
  get-count p i a (x ∷ rows) e h = ground (arith, get-count p i a rows)

  -- The one row that a test selects is the one that is known.
  pub only-select :
      (p : R → Bool) (i : ℕ) (a : R) (rows : List R)
      → get id i rows ≡ some a
      → p a ≡ true
      → count p rows ≤ 1
      → select p rows ≡ a ∷ []
  only-select p i a [] e h n = cc
  only-select p i a (x ∷ rows) e h n =
      ground (arith, only-select p i a rows, none-select p rows, get-count p i a rows)

module _ {A : Type 0} where
  pub result-cases : (r : Result A) → ((a : A) × (r ≡ ok a)) ⊎ ((e : Exception) × (r ≡ err e))
  result-cases (ok a) = inl (a, refl)
  result-cases (err e) = inr (e, refl)
