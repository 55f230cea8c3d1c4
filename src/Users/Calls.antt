-- ===== src/Users/Calls.antt =====
-- What each call of the user service leaves.
use zhiwei_backend.Prelude.{
  ℕ, Done, length, ◌+◌, ◌≤◌, ◌≡◌, refl, sym, Bool, true, false, ◌&&◌, ◌||◌, Option, none, some,
  String, str_eq, arith, subst, inl, inr, Option-cases, Bool-cases, ◌⊎◌, ltb, ◌==◌, Exception,
  Result, ok, err, scalar_one_or_none,
}
use zhiwei_backend.Prelude.Texts.{codes}
use zhiwei_backend.Prelude.Rows.{select, count, get}
use zhiwei_backend.Prelude.Rows.Laws.{bit, result-cases, get-id, none-count, found-cases}
use zhiwei_backend.Prelude.Rows.Except.{except}
use zhiwei_backend.Users.Table.{
  User, UserTable, UserCreate, UserAdminUpdate, Role, user_id, is_named, is_mailed, is_active_admin,
  count_active_admins,
}
use zhiwei_backend.Users.Service.{
  Bcrypt, is_too_long, is_taken, admin_update_user, admin_delete_user, create_user,
  admin_reset_password, change_email, role_after, active_after, applied, email_exists, demotes,
  deactivates, changes_role, will_lose_admin,
}
use zhiwei_backend.Users.Invariant.{
  IsSound, Kept, Kept-refused, Kept-written, Kept-deleted, Kept-added,
}

pub find-id :
    (i : ℕ) (b : User) (t : UserTable)
    → get user_id i t.rows ≡ some b
    → get user_id b.id t.rows ≡ some b
find-id i b t e =
    subst (λ (k : ℕ). get user_id k t.rows ≡ some b) (sym (get-id user_id i t.rows b e)) e

pub not_taken :
    (payload : UserCreate) (t : UserTable)
    → count (is_named payload.username) t.rows ≡ 0
    → count (is_mailed payload.email) t.rows ≡ 0
    → is_taken payload t ≡ false
unfolding is_taken
not_taken payload t n m = rw (n, m) refl

-- What `change_email` does: it refuses, or gives the user with an address that no other has.
unfoldable pub ChangedEmail : User → UserTable → Result User × UserTable → Type 0
ChangedEmail b t out =
    ((e : Exception) × (out ≡ (err e, t)))
    ⊎ ((email : String) × (out ≡ (ok (record b { email = email }), t))
        × ((email ≡ b.email) ⊎ (count (except user_id b.id (is_mailed email)) t.rows ≡ 0)))

pub change_email-ChangedEmail :
    (o : Option String) (b : User) (t : UserTable) → ChangedEmail b t (change_email o b t)
unfolding change_email ChangedEmail
change_email-ChangedEmail none b t = inr (b.email, refl, inl refl)
change_email-ChangedEmail (some email) b t = elim (Bool-cases (str_eq email b.email)) [
  | inl e ↦ rw e (inr (b.email, refl, inl refl))
  | inr e ↦
      elim (found-cases
        (scalar_one_or_none (select (except user_id b.id (is_mailed email)) t.rows))) [
          | inl none_found ↦ elim (Bool-cases (ltb 128 (length (codes email)))) [
            | inl long ↦ inl (Exception.data_error, rw (e, none_found, long))
            | inr short ↦ inr (
              email,
              rw (e, none_found, short),
              inr (none-count (except user_id b.id (is_mailed email)) t.rows none_found),
            )
          ]
          | inr (inl (u, found)) ↦ inl (email_exists, rw (e, found))
          | inr (inr (x, failed)) ↦ inl (x, rw (e, failed))
        ]
]

-- The guards let the last active admin keep role and activity.
guards_admins :
    (r : Option Role) (a : Option Bool) (b : User) (t : UserTable)
    → (((demotes r || deactivates a) && str_eq b.role "admin")
        && ltb (count_active_admins (some b.id) t) 1)
      ≡ false
    → bit (is_active_admin b)
      ≤ bit (str_eq (role_after r b.role) "admin" && active_after a b.is_active)
        + count (except user_id b.id is_active_admin) t.rows
guards_admins none none b t h = omega arith
guards_admins none (some true) b t h = ground arith
guards_admins none (some false) b t h = ground arith
guards_admins (some Role.admin) none b t h = ground arith
guards_admins (some Role.admin) (some true) b t h = ground arith
guards_admins (some Role.admin) (some false) b t h = ground arith
guards_admins (some Role.user) none b t h = ground arith
guards_admins (some Role.user) (some true) b t h = ground arith
guards_admins (some Role.user) (some false) b t h = ground arith

-- An update of a user leaves a sound table sound, with an active administrator if there was one, and
-- unchanged if it raised.
pub admin_update_user-Kept :
    (operator : User) (i : ℕ) (payload : UserAdminUpdate) (t : UserTable)
    → IsSound t
    → Kept t (admin_update_user operator i payload t)
unfolding admin_update_user ChangedEmail
admin_update_user-Kept operator i payload t s = elim (Option-cases (get user_id i t.rows)) [
  | inl e ↦ rw e (Kept-refused t _ s)
  | inr (b, e) ↦
      elim (Bool-cases
        (changes_role payload.role b.role && ((b.id == operator.id) && demotes payload.role))) [
          | inl g ↦ rw (e, g) (Kept-refused t _ s)
          | inr g ↦
              elim (Bool-cases
                (deactivates payload.is_active && b.is_active && (b.id == operator.id))) [
                  | inl g' ↦ rw (e, g, g') (Kept-refused t _ s)
                  | inr g' ↦
                      elim (Bool-cases
                        (will_lose_admin payload b && ltb (count_active_admins (some b.id) t) 1)) [
                          | inl l ↦ rw (e, g, g', l) (Kept-refused t _ s)
                          | inr l ↦
                              rw (e, g, g', l)
                                (elim (change_email-ChangedEmail payload.email b t) [
                                  | inl (x, out) ↦ rw out (Kept-refused t _ s)
                                  | inr (email, out, free) ↦ rw out (
                                      Kept-written
                                        (ok (applied payload (record b { email = email })))
                                        (applied payload (record b { email = email })) b t s
                                        (find-id i b t e) refl free refl
                                        (guards_admins payload.role payload.is_active b t l))
                                ])
                        ]
                ]
        ]
]

pub admin_delete_user-Kept :
    (references : ℕ → Result Done) (operator : User) (i : ℕ) (t : UserTable)
    → IsSound t
    → Kept t (admin_delete_user references operator i t)
unfolding admin_delete_user
admin_delete_user-Kept references operator i t s = elim (Option-cases (get user_id i t.rows)) [
  | inl e ↦ rw e (Kept-refused t _ s)
  | inr (b, e) ↦ elim (Bool-cases (b.id == operator.id)) [
    | inl g ↦ rw (e, g) (Kept-refused t _ s)
    | inr g ↦
        elim (Bool-cases (str_eq b.role "admin" && ltb (count_active_admins (some b.id) t) 1)) [
          | inl l ↦ rw (e, g, l) (Kept-refused t _ s)
          | inr l ↦ elim (result-cases (references b.id)) [
            | inr (x, r) ↦ rw (e, g, l, r) (Kept-refused t _ s)
            | inl (done, r) ↦
                rw (e, g, l, r)
                  (Kept-deleted (ok tt) b.id b t s (find-id i b t e) refl (ground arith))
          ]
        ]
  ]
]

module _ (bcrypt : Bcrypt) where
  pub admin_reset_password-Kept :
      (salt : String) (operator : User) (i : ℕ) (new_password : String) (t : UserTable)
      → IsSound t
      → Kept t (admin_reset_password bcrypt salt operator i new_password t)
  unfolding admin_reset_password
  admin_reset_password-Kept salt operator i new_password t s =
      elim (Option-cases (get user_id i t.rows)) [
        | inl e ↦ rw e (Kept-refused t _ s)
        | inr (b, e) ↦ rw e (
            Kept-written (ok tt) (record b { hashed_password = bcrypt.hashpw new_password salt }) b
              t s (find-id i b t e) refl (inl refl) refl (omega arith))
      ]

  pub create_user-Kept :
      (salt : String) (payload : UserCreate) (t : UserTable)
      → IsSound t
      → Kept t (create_user bcrypt salt payload t)
  unfolding create_user
  create_user-Kept salt payload t s =
      elim (found-cases (scalar_one_or_none (select (is_named payload.username) t.rows))) [
        | inr (inl (u, e)) ↦ rw e (Kept-refused t _ s)
        | inr (inr (x, e)) ↦ rw e (Kept-refused t _ s)
        | inl e ↦
            elim (found-cases (scalar_one_or_none (select (is_mailed payload.email) t.rows))) [
              | inr (inl (u, f)) ↦ rw (e, f) (Kept-refused t _ s)
              | inr (inr (x, f)) ↦ rw (e, f) (Kept-refused t _ s)
              | inl f ↦
                  let named = none-count (is_named payload.username) t.rows e in
                  let mailed = none-count (is_mailed payload.email) t.rows f in
                  elim (Bool-cases (is_too_long payload)) [
                    | inl long ↦ rw (e, f, long) (Kept-refused t _ s)
                    | inr short ↦
                        rw (e, f, short, not_taken payload t named mailed)
                          (Kept-added _ _ t s refl refl named mailed)
                  ]
            ]
      ]
