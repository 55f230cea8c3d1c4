-- ===== src/Users/Invariant.antt =====
-- The invariant of the user table, and what each kind of write does to it.
use zhiwei_backend.Prelude.{
  ℕ, suc, ◌+◌, ◌≤◌, ◌≡◌, refl, sym, ap, ◌∙◌, Bool, true, false, List, [], ◌∷◌, ◌++◌, some, String,
  str_eq, eq_iff, arith, subst, inl, inr, Bool-cases, ◌⊎◌, Result, is_ok,
}
use zhiwei_backend.Prelude.Rows.{count, get, put, delete}
use zhiwei_backend.Prelude.Rows.Laws.{
  bit, Distinct, AllBelow, ids, ids-put, ids-append, count-append, Distinct-append,
}
use zhiwei_backend.Prelude.Rows.Except.{
  except, count-except, count-put-except, count-delete, count-except_le, Distinct-delete,
  AllBelow-delete,
}
use zhiwei_backend.Users.Table.{User, UserTable, user_id, is_named, is_mailed, is_active_admin}

-- Primary keys are distinct and below the sequence; no two users share a name or an address.
pub record IsSound (t : UserTable) : Type 0 where
  pub distinct : Distinct (ids user_id t.rows)
  pub below : AllBelow t.next_id (ids user_id t.rows)
  pub named : (username : String) → count (is_named username) t.rows ≤ 1
  pub mailed : (email : String) → count (is_mailed email) t.rows ≤ 1

abbrev pub active_admins : UserTable → ℕ
active_admins t = count is_active_admin t.rows

-- What a request leaves: a sound table, one active admin if there was one, and the table as it was
-- if it raised.
pub record Kept {A : Type 0} (t : UserTable) (out : Result A × UserTable) : Type 0 where
  pub sound : IsSound out.1
  pub admins : 1 ≤ active_admins t → 1 ≤ active_admins out.1
  pub unchanged : is_ok out.0 ≡ false → out.1 ≡ t

pub Kept-refused : {A : Type 0} (t : UserTable) (r : Result A) → IsSound t → Kept t (r, t)
Kept-refused t r s = record { sound = s; admins = λ h. h; unchanged = λ e. refl }

abbrev pub written : User → UserTable → UserTable
written u t = record t { rows = put user_id u t.rows }

-- The write of a row of `b` that keeps the name, takes no other's address, and takes the last active
-- admin away only if another one is left.
pub Kept-written :
    {A : Type 0} (r : Result A) (u b : User) (t : UserTable)
    → IsSound t
    → get user_id u.id t.rows ≡ some b
    → u.username ≡ b.username
    → ((u.email ≡ b.email) ⊎ (count (except user_id u.id (is_mailed u.email)) t.rows ≡ 0))
    → is_ok r ≡ true
    → bit (is_active_admin b)
      ≤ bit (is_active_admin u) + count (except user_id u.id is_active_admin) t.rows
    → Kept t (r, written u t)
Kept-written r u b t s found name mail fine admins =
    let after : (p : User → Bool)
        → count p (put user_id u t.rows) ≡ count (except user_id u.id p) t.rows + bit (p u) =
      λ p. count-put-except user_id p u b t.rows s.distinct found in
    let before : (p : User → Bool)
        → count p t.rows ≡ count (except user_id u.id p) t.rows + bit (p b) =
      λ p. count-except user_id p u.id b t.rows s.distinct found in
    record {
      sound = record {
        distinct = subst (λ (is : List ℕ). Distinct is) (sym (ids-put user_id u t.rows)) s.distinct;
        below =
            subst (λ (is : List ℕ). AllBelow t.next_id is) (sym (ids-put user_id u t.rows)) s.below;
        named = λ n. omega (
          arith,
          after (is_named n),
          before (is_named n),
          s.named n,
          ap (λ (m : String). bit (str_eq m n)) name,
        );
        mailed = λ e. elim mail [
          | inl same ↦ omega (
            arith,
            after (is_mailed e),
            before (is_mailed e),
            s.mailed e,
            ap (λ (m : String). bit (str_eq m e)) same,
          )
          | inr free ↦ elim (Bool-cases (str_eq u.email e)) [
            | inl taken ↦ omega (
              arith,
              after (is_mailed e),
              ap bit taken,
              ap (λ (m : String). count (except user_id u.id (is_mailed m)) t.rows)
                  ((eq_iff u.email e).0 taken),
              free,
            )
            | inr other ↦
                omega (arith, after (is_mailed e), before (is_mailed e), s.mailed e, ap bit other)
          ]
        ];
      };
      admins = λ h. omega (arith, h, after is_active_admin, before is_active_admin, admins);
      unchanged = λ e. cc;
    }

-- The deletion of the row of `b`, that is not the last active admin.
pub Kept-deleted :
    {A : Type 0} (r : Result A) (i : ℕ) (b : User) (t : UserTable)
    → IsSound t
    → get user_id i t.rows ≡ some b
    → is_ok r ≡ true
    → bit (is_active_admin b) ≤ count (except user_id i is_active_admin) t.rows
    → Kept t (r, record t { rows = delete user_id i t.rows })
Kept-deleted r i b t s found fine admins =
    let fewer : (p : User → Bool) → count p (delete user_id i t.rows) ≤ count p t.rows =
      λ p. omega (arith, count-delete user_id p i t.rows, count-except_le user_id p i t.rows) in
    record {
      sound = record {
        distinct = Distinct-delete user_id i t.rows s.distinct;
        below = AllBelow-delete user_id t.next_id i t.rows s.below;
        named = λ n. omega (arith, fewer (is_named n), s.named n);
        mailed = λ e. omega (arith, fewer (is_mailed e), s.mailed e);
      };
      admins = λ h. omega (
        arith,
        h,
        admins,
        count-delete user_id is_active_admin i t.rows,
        count-except user_id is_active_admin i b t.rows s.distinct found,
      );
      unchanged = λ e. cc;
    }

-- A new user whose name and address are free.
pub Kept-added :
    {A : Type 0} (r : Result A) (u : User) (t : UserTable)
    → IsSound t
    → u.id ≡ t.next_id
    → is_ok r ≡ true
    → count (is_named u.username) t.rows ≡ 0
    → count (is_mailed u.email) t.rows ≡ 0
    → Kept t (r, record { rows = t.rows ++ u ∷ []; next_id = suc t.next_id })
Kept-added r u t s e fine name mail =
    let new = Distinct-append t.next_id (ids user_id t.rows) s.distinct s.below in
    let keys : ids user_id (t.rows ++ u ∷ []) ≡ ids user_id t.rows ++ t.next_id ∷ [] =
      ids-append user_id t.rows u ∙ ap (λ (i : ℕ). ids user_id t.rows ++ i ∷ []) e in
    record {
      sound = record {
        distinct = subst (λ (is : List ℕ). Distinct is) (sym keys) new.0;
        below = subst (λ (is : List ℕ). AllBelow (suc t.next_id) is) (sym keys) new.1;
        named = λ n. elim (Bool-cases (str_eq u.username n)) [
          | inl taken ↦ omega (
            arith,
            count-append (is_named n) t.rows u,
            ap bit taken,
            ap (λ (m : String). count (is_named m) t.rows) ((eq_iff u.username n).0 taken),
            name,
          )
          | inr other ↦ omega (arith, count-append (is_named n) t.rows u, ap bit other, s.named n)
        ];
        mailed = λ n. elim (Bool-cases (str_eq u.email n)) [
          | inl taken ↦ omega (
            arith,
            count-append (is_mailed n) t.rows u,
            ap bit taken,
            ap (λ (m : String). count (is_mailed m) t.rows) ((eq_iff u.email n).0 taken),
            mail,
          )
          | inr other ↦ omega (arith, count-append (is_mailed n) t.rows u, ap bit other, s.mailed n)
        ];
      };
      admins = λ h. omega (arith, h, count-append is_active_admin t.rows u);
      unchanged = λ h. cc;
    }
