-- ===== src/Users/Operator.antt =====
-- An administrator keeps the own account, whatever is asked for.
use zhiwei_backend.Prelude.{
  ℕ, Done, Result, ◌≡◌, refl, sym, ap, ◌∙◌, Bool, true, false, ◌&&◌, Option, none, some, String,
  str_eq, eq_iff, arith, subst, inl, inr, Option-cases, Bool-cases, ◌==◌, ==_iff, ltb,
}
use zhiwei_backend.Prelude.Rows.{get, put}
use zhiwei_backend.Prelude.Rows.Laws.{get-put, result-cases}
use zhiwei_backend.Prelude.Rows.Except.{get-delete}
use zhiwei_backend.Users.Table.{
  User, UserTable, UserAdminUpdate, Role, user_id, is_active_admin, count_active_admins,
}
use zhiwei_backend.Users.Service.{
  admin_update_user, admin_delete_user, role_after, active_after, applied, demotes, deactivates,
  changes_role, will_lose_admin,
}
use zhiwei_backend.Users.Calls.{ChangedEmail, change_email-ChangedEmail, find-id}

-- The account under this key is an active administrator's.
unfoldable pub IsAdmin : ℕ → UserTable → Type 0
IsAdmin i t = (u : User) × (get user_id i t.rows ≡ some u) × (is_active_admin u ≡ true)

guards_self :
    (r : Option Role) (a : Option Bool) (role : String) (active : Bool)
    → (str_eq role "admin" && active) ≡ true
    → (changes_role r role && (true && demotes r)) ≡ false
    → (deactivates a && active && true) ≡ false
    → (str_eq (role_after r role) "admin" && active_after a active) ≡ true
guards_self none none role active h g g' = ground arith
guards_self none (some b) role active h g g' = ground arith
guards_self (some Role.admin) none role active h g g' = ground arith
guards_self (some Role.admin) (some b) role active h g g' = ground arith
guards_self (some Role.user) none role active h g g' =
    ground (arith, ap (λ (x : String). str_eq "user" x) ((eq_iff role "admin").0 (ground arith)))
guards_self (some Role.user) (some b) role active h g g' =
    ground (arith, ap (λ (x : String). str_eq "user" x) ((eq_iff role "admin").0 (ground arith)))

abbrev active_option : Option User → Bool
active_option none = false
active_option (some u) = is_active_admin u

IsAdmin-put :
    (i : ℕ) (u b : User) (t : UserTable)
    → IsAdmin i t
    → get user_id u.id t.rows ≡ some b
    → ((u.id == i) ≡ true → is_active_admin u ≡ true)
    → IsAdmin i (record t { rows = put user_id u t.rows })
unfolding IsAdmin
IsAdmin-put i u b t (a, e, p) found keeps = elim (Bool-cases (u.id == i)) [
  | inl same ↦ (u, get-put user_id i u b t.rows found ∙ rw same refl, keeps same)
  | inr other ↦ (a, get-put user_id i u b t.rows found ∙ rw other e, p)
]

own_admin :
    (i : ℕ) (b : User) (t : UserTable)
    → IsAdmin i t
    → get user_id b.id t.rows ≡ some b
    → (b.id == i) ≡ true
    → is_active_admin b ≡ true
unfolding IsAdmin
own_admin i b t (a, e, p) found same =
    let e' : get user_id i t.rows ≡ some b =
      subst (λ (k : ℕ). get user_id k t.rows ≡ some b) ((==_iff b.id i).0 same) found in
    subst (λ (o : Option User). active_option o ≡ true) (sym e ∙ e') p

-- Whatever an active administrator asks to change, in any account, leaves the own account an active
-- administrator's.
pub admin_update_user-IsAdmin :
    (operator : User) (i : ℕ) (payload : UserAdminUpdate) (t : UserTable)
    → IsAdmin operator.id t
    → IsAdmin operator.id (admin_update_user operator i payload t).1
unfolding admin_update_user ChangedEmail
admin_update_user-IsAdmin operator i payload t a = elim (Option-cases (get user_id i t.rows)) [
  | inl e ↦ rw e a
  | inr (b, e) ↦
      elim (Bool-cases
        (changes_role payload.role b.role && ((b.id == operator.id) && demotes payload.role))) [
          | inl g ↦ rw (e, g) a
          | inr g ↦
              elim (Bool-cases
                (deactivates payload.is_active && b.is_active && (b.id == operator.id))) [
                  | inl g' ↦ rw (e, g, g') a
                  | inr g' ↦
                      elim (Bool-cases
                        (will_lose_admin payload b && ltb (count_active_admins (some b.id) t) 1)) [
                          | inl l ↦ rw (e, g, g', l) a
                          | inr l ↦
                              rw (e, g, g', l)
                                (elim (change_email-ChangedEmail payload.email b t) [
                                  | inl (x, out) ↦ rw out a
                                  | inr (email, out, free) ↦ rw out (
                                      IsAdmin-put operator.id
                                        (applied payload (record b { email = email })) b t a
                                        (find-id i b t e)
                                        (λ same.
                                          guards_self payload.role payload.is_active b.role
                                            b.is_active
                                            (own_admin operator.id b t a (find-id i b t e) same)
                                            (subst
                                              (λ (k : Bool).
                                                (changes_role payload.role b.role
                                                  && (k && demotes payload.role))
                                                ≡ false)
                                              same g)
                                            (subst
                                              (λ (k : Bool).
                                                (deactivates payload.is_active && b.is_active && k)
                                                ≡ false)
                                              same g')))
                                ])
                        ]
                ]
        ]
]

-- Whatever account an active administrator asks to delete, and whatever the database answers, the own account stays an active
-- administrator's.
pub admin_delete_user-IsAdmin :
    (references : ℕ → Result Done) (operator : User) (i : ℕ) (t : UserTable)
    → IsAdmin operator.id t
    → IsAdmin operator.id (admin_delete_user references operator i t).1
unfolding admin_delete_user IsAdmin
admin_delete_user-IsAdmin references operator i t a = elim (Option-cases (get user_id i t.rows)) [
  | inl e ↦ rw e a
  | inr (b, e) ↦ elim (Bool-cases (b.id == operator.id)) [
    | inl g ↦ rw (e, g) a
    | inr g ↦
        elim (Bool-cases (str_eq b.role "admin" && ltb (count_active_admins (some b.id) t) 1)) [
          | inl l ↦ rw (e, g, l) a
          | inr l ↦ elim (result-cases (references b.id)) [
            | inr (x, r) ↦ rw (e, g, l, r) a
            | inl (done, r) ↦
                rw (e, g, l, r)
                  (
                    a.0,
                    get-delete user_id b.id operator.id t.rows (λ same. ground arith) ∙ a.1,
                    a.2,
                  )
          ]
        ]
  ]
]
