-- ===== src/Users/Passwords.antt =====
-- Who can log in after an account is made, or its password is reset.
use zhiwei_backend.Prelude.{
  ℕ, ◌≤◌, ◌≡◌, refl, sym, ◌∙◌, true, false, length, some, String, eq_refl, arith, subst, inl, inr,
  Bool-cases, if◌then◌else◌, ok, err, auth_exception, ◌∷◌, [], ==_self,
}
use zhiwei_backend.Prelude.Rows.{select, count, get, put}
use zhiwei_backend.Prelude.Rows.Laws.{
  select-append_none, only-select, none-select, get-put, count-put, get-id,
}
use zhiwei_backend.Users.Table.{User, UserTable, UserCreate, user_id, is_named, is_mailed}
use zhiwei_backend.Users.Service.{
  Bcrypt, is_too_long, new_user, create_user, authenticate, admin_reset_password,
}
use zhiwei_backend.Users.Invariant.{IsSound}
use zhiwei_backend.Prelude.Texts.{codes}
use zhiwei_backend.Users.Calls.{not_taken}

-- bcrypt accepts the password that a hash was made of.
unfoldable pub Verifies : Bcrypt → Type 0
Verifies bcrypt =
    (password salt : String) → bcrypt.checkpw password (bcrypt.hashpw password salt) ≡ true

fits :
    (payload : UserCreate)
    → length (codes payload.username) ≤ 64
    → length (codes payload.email) ≤ 128
    → is_too_long payload ≡ false
unfolding is_too_long
fits payload short short' = ground (arith, short, short')

module _ (bcrypt : Bcrypt) (verifies : Verifies bcrypt) where
  -- If bcrypt accepts the password that a hash was made of: an account whose name and address are free and
  -- fit their columns, of 64 and 128 characters, is made, and its name and password log in to it.
  pub create_user-authenticate :
      (salt : String) (payload : UserCreate) (t : UserTable)
      → count (is_named payload.username) t.rows ≡ 0
      → count (is_mailed payload.email) t.rows ≡ 0
      → length (codes payload.username) ≤ 64
      → length (codes payload.email) ≤ 128
      → let out = create_user bcrypt salt payload t in
        (u : User) × (out.0 ≡ ok u)
        × (authenticate bcrypt payload.username payload.password out.1 ≡ (ok u, out.1))
  unfolding create_user authenticate Verifies
  create_user-authenticate salt payload t n m short short' =
      rw
        (
          none-select (is_named payload.username) t.rows n,
          none-select (is_mailed payload.email) t.rows m,
          fits payload short short',
          not_taken payload t n m,
        )
        (
          new_user payload (bcrypt.hashpw payload.password salt) t.next_id,
          refl,
          rw
              (
                select-append_none (is_named payload.username) t.rows
                    (new_user payload (bcrypt.hashpw payload.password salt) t.next_id) n
                    (eq_refl payload.username),
                verifies payload.password salt,
              )
              refl,
        )

  -- If bcrypt accepts the password that a hash was made of: on a sound table a reset of a user's
  -- password returns, and the new password logs the user in, or is told that the
  -- account is disabled if it is.
  pub admin_reset_password-authenticate :
      (salt : String) (operator : User) (i : ℕ) (new_password : String) (t : UserTable) (b : User)
      → IsSound t
      → get user_id i t.rows ≡ some b
      → let out = admin_reset_password bcrypt salt operator i new_password t in
        let u = record b { hashed_password = bcrypt.hashpw new_password salt } in
        (out.0 ≡ ok tt)
        × (authenticate bcrypt b.username new_password out.1
            ≡ (if b.is_active then ok u else err (auth_exception "用户已停用"), out.1))
  unfolding admin_reset_password authenticate Verifies
  admin_reset_password-authenticate salt operator i new_password t b s e =
      let u : User = record b { hashed_password = bcrypt.hashpw new_password salt } in
      let own : get user_id u.id t.rows ≡ some b =
        subst (λ (k : ℕ). get user_id k t.rows ≡ some b) (sym (get-id user_id i t.rows b e)) e in
      let stored : get user_id u.id (put user_id u t.rows) ≡ some u =
        get-put user_id u.id u b t.rows own ∙ rw (==_self u.id) refl in
      let found : select (is_named b.username) (put user_id u t.rows) ≡ u ∷ [] =
        only-select user_id (is_named b.username) u.id u (put user_id u t.rows) stored
          (eq_refl b.username)
          (omega (
            arith,
            count-put user_id (is_named b.username) u b t.rows s.distinct own,
            s.named b.username,
          )) in
      elim (Bool-cases b.is_active) [
        | inl active ↦ rw (e, found, verifies new_password salt, active) (refl, refl)
        | inr disabled ↦ rw (e, found, verifies new_password salt, disabled) (refl, refl)
      ]
