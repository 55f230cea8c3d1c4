-- ===== src/Access/Identity.antt =====
-- Whom a token stands for.
use zhiwei_backend.Prelude.{
  ℕ, ◌≡◌, refl, sym, ap, ◌∙◌, true, inl, inr, Option, none, some, String, str_eq, Bool-cases,
  Exception, Result, ok, err, then_result,
}
use zhiwei_backend.Prelude.Rows.{get}
use zhiwei_backend.Users.Table.{User, UserTable, user_id}
use zhiwei_backend.Access.Guards.{Claims, has_type, checked_claims, active_user, get_current_user}

-- The token was issued for access, and its subject is this user, who is active.
pub record IsIdentified (decode : String → Option Claims) (token : String) (t : UserTable)
    (u : User) : Type 0 where
  pub claims : Claims
  pub subject : ℕ
  pub decoded : decode token ≡ some claims
  pub access : has_type claims.type "access" ≡ true
  pub is_subject : claims.sub ≡ ok subject
  pub stored : get user_id subject t.rows ≡ some u
  pub active : u.is_active ≡ true

ok_injective : {A : Type 0} (r : Result A) (a b : A) → r ≡ ok a → r ≡ ok b → a ≡ b
ok_injective r a b e f = cc

refused : {A : Type 0} (e : Exception) (a : A) → err e ≡ ok a → ⊥
refused e a h = cc

active_user-ok :
    (o : Option User) (u : User) → active_user o ≡ ok u → (o ≡ some u) × (u.is_active ≡ true)
active_user-ok none u h = cc
active_user-ok (some v) u h = elim (Bool-cases v.is_active) [
  | inl a ↦
      let same : v ≡ u = ok_injective (active_user (some v)) v u (rw a refl) h in
      (ap some same, ap (λ (w : User). w.is_active) (sym same) ∙ a)
  | inr d ↦ absurd (refused _ u (rw d at h))
]

checked_claims-ok :
    (o : Option Claims) (type : String) (c : Claims)
    → checked_claims o type ≡ ok c
    → (o ≡ some c) × (has_type c.type type ≡ true)
checked_claims-ok none type c h = cc
checked_claims-ok (some d) type c h = elim (Bool-cases (has_type d.type type)) [
  | inl w ↦
      let same : d ≡ c = ok_injective (checked_claims (some d) type) d c (rw w refl) h in
      (ap some same, ap (λ (x : Claims). has_type x.type type) (sym same) ∙ w)
  | inr w ↦ absurd (refused _ c (rw w at h))
]

-- What a chain of two steps returns comes from what the first one returns.
then_result-ok :
    {A : Type 0} {B : Type 0} (r : Result A) (f : A → Result B) (b : B)
    → then_result r f ≡ ok b
    → (a : A) × (r ≡ ok a) × (f a ≡ ok b)
then_result-ok (ok a) f b h = (a, refl, h)
then_result-ok (err e) f b h = absurd (refused e b h)

-- A user is let in only by a token of the type `access` whose subject the user is, and only while the
-- account is active: refresh tokens and tokens of disabled or deleted accounts are refused.
pub get_current_user-IsIdentified :
    (decode : String → Option Claims) (token : String) (t : UserTable) (u : User)
    → get_current_user decode (some token) t ≡ ok u
    → IsIdentified decode token t u
unfolding get_current_user
get_current_user-IsIdentified decode token t u h = elim (Bool-cases (str_eq token "")) [
  | inl e ↦ absurd (refused _ u (rw e at h))
  | inr e ↦
      let (claims, checked, chosen) =
        then_result-ok (checked_claims (decode token) "access")
          (λ payload. then_result payload.sub (λ i. active_user (get user_id i t.rows))) u
          (rw e at h) in
      let (decoded, access) = checked_claims-ok (decode token) "access" claims checked in
      let (i, sub, found) =
        then_result-ok claims.sub (λ i. active_user (get user_id i t.rows)) u chosen in
      let (stored, active) = active_user-ok (get user_id i t.rows) u found in
      record {
        claims = claims;
        subject = i;
        decoded = decoded;
        access = access;
        is_subject = sub;
        stored = stored;
        active = active;
      }
]
