-- ===== src/Prelude/Rows/Pages.antt =====
-- Sorted rows and their pages.
use Prim.Native.Nat.{ℕ, zero, suc, ◌+◌, ◌-◌, ◌*◌, ◌≤◌}
use mathlib.Core.Path.{◌≡◌, refl, ap, sym, ◌∙◌}
use mathlib.Core.Bool.{Bool}
use mathlib.Core.Logic.{inl, inr}
use mathlib.Core.List.{List, [], ◌∷◌, ◌++◌}
use native.Mathlib.Omega.{arith}
use zhiwei_backend.Prelude.Tests.{leb, leb→le, Bool-cases, if◌then◌else◌}
use zhiwei_backend.Prelude.Lists.{length, take, drop}
use zhiwei_backend.Prelude.Rows.{count, offset_limit}

module _ {R : Type 0} (key : R → ℕ) where
  abbrev pub insert_by : R → List R → List R
  insert_by a [] = a ∷ []
  insert_by a (x ∷ xs) = if leb (key a) (key x) then a ∷ x ∷ xs else x ∷ insert_by a xs

  -- `.order_by(key)`
  abbrev pub order_by : List R → List R
  order_by [] = []
  order_by (x ∷ xs) = insert_by x (order_by xs)

  count-insert_by :
      (p : R → Bool) (a : R) (xs : List R) → count p (insert_by a xs) ≡ count p (a ∷ xs)
  count-insert_by p a [] = refl
  count-insert_by p a (x ∷ xs) = ground (arith, count-insert_by p a xs)

  -- Sorting keeps every row.
  pub count-order_by : (p : R → Bool) (xs : List R) → count p (order_by xs) ≡ count p xs
  count-order_by p [] = refl
  count-order_by p (x ∷ xs) =
      count-insert_by p x (order_by xs) ∙ ground (arith, count-order_by p xs)

  abbrev pub FromKey : ℕ → List R → Type 0
  FromKey n [] = Unit
  FromKey n (x ∷ xs) = (n ≤ key x) × FromKey (key x) xs

  abbrev pub Sorted : List R → Type 0
  Sorted xs = FromKey 0 xs

  FromKey-insert_by :
      (n : ℕ) (a : R) (xs : List R) → n ≤ key a → FromKey n xs → FromKey n (insert_by a xs)
  FromKey-insert_by n a [] le s = (le, tt)
  FromKey-insert_by n a (x ∷ xs) le s = elim (Bool-cases (leb (key a) (key x))) [
    | inl e ↦ rw e (le, (leb→le (key a) (key x) e, s.1))
    | inr e ↦ rw e (s.0, FromKey-insert_by (key x) a xs (ground arith) s.1)
  ]

  pub order_by-Sorted : (xs : List R) → Sorted (order_by xs)
  order_by-Sorted [] = tt
  order_by-Sorted (x ∷ xs) = FromKey-insert_by 0 x (order_by xs) (omega arith) (order_by-Sorted xs)

module _ {R : Type 0} where
  -- `.offset((page - 1) * size).limit(size)`, for pages from 1 on
  abbrev pub page_of : ℕ → ℕ → List R → List R
  page_of page size rows = offset_limit ((page - 1) * size) size rows

  -- Pages 1 to n, joined.
  abbrev pub pages : (ℕ → List R) → ℕ → List R
  pages page zero = []
  pages page (suc n) = pages page n ++ page (suc n)

  pub take_nil : (n : ℕ) → take {A = R} n [] ≡ []
  take_nil zero = refl
  take_nil (suc n) = refl

  take-take-drop : (n m : ℕ) (xs : List R) → take n xs ++ take m (drop n xs) ≡ take (n + m) xs
  take-take-drop zero m xs = ap (λ (k : ℕ). take k xs) (omega arith)
  take-take-drop (suc n) m [] = take_nil m ∙ sym (take_nil (suc n + m))
  take-take-drop (suc n) m (x ∷ xs) =
      ap (λ (ys : List R). x ∷ ys) (take-take-drop n m xs)
      ∙ ap (λ (k : ℕ). take k (x ∷ xs)) (the_suc n m)
    where
      the_suc : (n m : ℕ) → suc (n + m) ≡ suc n + m
      the_suc n m = omega arith

  -- Pages 1 to n are the first rows, each once.
  pub pages-page_of :
      (n size : ℕ) (rows : List R) → pages (λ page. page_of page size rows) n ≡ take (n * size) rows
  pages-page_of zero size rows = ap (λ (k : ℕ). take k rows) (zero_times size)
    where
      zero_times : (size : ℕ) → 0 ≡ 0 * size
      zero_times size = omega arith
  pages-page_of (suc n) size rows =
      let earlier : (suc n - 1) * size ≡ n * size = ap (λ (k : ℕ). k * size) (omega arith) in
      let step : n * size + size ≡ suc n * size = omega arith in
      ap (λ (k : ℕ). pages (λ page. page_of page size rows) n ++ take size (drop k rows)) earlier
      ∙ ap (λ (xs : List R). xs ++ take size (drop (n * size) rows)) (pages-page_of n size rows)
      ∙ take-take-drop (n * size) size rows
      ∙ ap (λ (k : ℕ). take k rows) step

  pub take_all : (n : ℕ) (xs : List R) → length xs ≤ n → take n xs ≡ xs
  take_all n [] h = take_nil n
  take_all zero (x ∷ xs) h = absurd (omega arith)
  take_all (suc n) (x ∷ xs) h = ap (λ (ys : List R). x ∷ ys) (take_all n xs (omega arith))
