-- ===== src/Prelude/Outcomes.antt =====
-- Python exceptions as values, and methods that change a state and may raise. What was written
-- before a raise stays written, so the state comes back beside the error too.
-- app/core/exceptions.py: `BizException`, with `AuthException` as the one whose code is AUTH_ERROR.
use Prim.Native.Nat.{ℕ}
use Prim.Native.String.{String}
use mathlib.Core.Bool.{Bool, true, false}
use mathlib.Core.Option.{Option, none, some}
use mathlib.Core.List.{List, [], ◌∷◌}

pub record BizException : Type 0 where
  pub code : String
  pub message : String
  pub status_code : ℕ

pub data Exception : Type 0 where
  biz : BizException → Exception
  multiple_results_found no_result_found : Exception
  key_error index_error value_error attribute_error connection_error type_error integrity_error
        data_error overflow_error ignore :
      Exception

abbrev pub biz_exception : String → String → ℕ → Exception
biz_exception code message status_code =
    Exception.biz (record { code = code; message = message; status_code = status_code })

abbrev pub auth_exception : String → Exception
auth_exception message = biz_exception "AUTH_ERROR" message 401

pub data Result {ℓ} (A : Type ℓ) : Type ℓ where
  ok : A → Result A
  err : Exception → Result A

abbrev pub is_ok {ℓ} : {A : Type ℓ} → Result A → Bool
is_ok (ok _) = true
is_ok (err _) = false

abbrev pub then_result {ℓ κ} : {A : Type ℓ} {B : Type κ} → Result A → (A → Result B) → Result B
then_result (ok a) f = f a
then_result (err e) f = err e

-- what a method without a `return` returns
abbrev pub Done : Type 0
Done = Unit

abbrev pub Action {ℓ κ} : Type ℓ → Type κ → Type (ℓ ⊔ κ)
Action S A = S → Result A × S

module _ {ℓ κ} {S : Type ℓ} {A : Type κ} where
  abbrev pub pure : A → Action S A
  pure a s = (ok a, s)

  abbrev pub raise : Exception → Action S A
  raise e s = (err e, s)

  abbrev pub lift : Result A → Action S A
  lift r s = (r, s)

  abbrev pub gets : (S → A) → Action S A
  gets f s = (ok (f s), s)

  abbrev pub some_or : Option A → Exception → Action S A
  some_or none e s = (err e, s)
  some_or (some a) e s = (ok a, s)

abbrev pub modify {ℓ} : {S : Type ℓ} → (S → S) → Action S (Unit {0})
modify f s = (ok tt, f s)

abbrev pub raise_if {ℓ} : {S : Type ℓ} → Bool → Exception → Action S (Unit {0})
raise_if true e s = (err e, s)
raise_if false e s = (ok tt, s)

module _ {ℓ κ ι} {S : Type ℓ} {A : Type κ} {B : Type ι} where
  abbrev pub continue : Result A → (A → Action S B) → Action S B
  continue (ok a) f s = f a s
  continue (err e) f s = (err e, s)

infixl 5 ◌>>=◌ ◌>>◌
abbrev pub ◌>>=◌ {ℓ κ ι} :
    {S : Type ℓ} {A : Type κ} {B : Type ι} → Action S A → (A → Action S B) → Action S B
◌>>=◌ m f s = let (r, s') = m s in continue r f s'

abbrev pub ◌>>◌ {ℓ κ ι} :
    {S : Type ℓ} {A : Type κ} {B : Type ι} → Action S A → Action S B → Action S B
m >> k = m >>= λ _. k

-- `Result.scalar_one_or_none()` of a query that selected these rows.
abbrev pub scalar_one_or_none {ℓ} : {A : Type ℓ} → List A → Result (Option A)
scalar_one_or_none [] = ok none
scalar_one_or_none (x ∷ []) = ok (some x)
scalar_one_or_none (x ∷ y ∷ _) = err Exception.multiple_results_found

-- `Result.scalar_one()`.
abbrev pub scalar_one {ℓ} : {A : Type ℓ} → List A → Result A
scalar_one [] = err Exception.no_result_found
scalar_one (x ∷ []) = ok x
scalar_one (x ∷ y ∷ _) = err Exception.multiple_results_found
