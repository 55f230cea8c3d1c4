-- ===== src/Users/Bootstrap.antt =====
-- What the first deployment leaves, alone and when two requests overlap.
use zhiwei_backend.Prelude.{
  ℕ, suc, ◌≤◌, ◌≡◌, ◌≢◌, refl, ap, ◌∙◌, true, false, not, ◌||◌, ◌⊎◌, List, [], ◌∷◌, ◌++◌, String,
  str_eq, eq_iff, arith, inl, inr, Option-cases, Bool-cases, ltb, Result, Exception, ok, err,
  continue, length,
}
use zhiwei_backend.Prelude.Texts.{codes}
use zhiwei_backend.Users.Table.{User, UserTable, UserCreate, Role, is_active_admin}
use zhiwei_backend.Users.Service.{Bcrypt, new_user, is_too_long}
use zhiwei_backend.Users.Calls.{not_taken}
use zhiwei_backend.Users.Invariant.{IsSound, active_admins}
use zhiwei_backend.Users.Setup.{
  Toolkit, FirstAdmin, search, is_letter, is_initialized, check_init, insert_admin,
  init_first_admin, user_create, in_bounds, validate_password_strength, already_initialized,
  weak_password,
}

-- At least eight characters, with a letter and a digit among them.
pub record IsStrong (tools : Toolkit) (password : String) : Type 0 where
  pub long : 8 ≤ length (codes password)
  pub letter : search is_letter (codes password) ≡ true
  pub digit : search tools.is_decimal (codes password) ≡ true

texts_apart : (x y : String) → x ≢ y → str_eq x y ≡ false
texts_apart x y apart = elim (Bool-cases (str_eq x y)) [
  | inl same ↦ absurd (apart ((eq_iff x y).0 same))
  | inr other ↦ other
]

no_rows : (rows : List User) → ltb 0 (length rows) ≡ false → rows ≡ []
no_rows [] h = refl
no_rows (u ∷ rows) h = absurd (ground arith)

single-IsSound : (u : User) (n : ℕ) → u.id ≡ n → IsSound (record { rows = u ∷ []; next_id = suc n })
single-IsSound u n e = record {
  distinct = (tt, tt);
  below = (omega (arith, e), tt);
  named = λ m. ground arith;
  mailed = λ m. ground arith;
}

module _ (tools : Toolkit) where
  validate_cases :
      (password : String)
      → ((e : Exception) × (validate_password_strength tools password ≡ err e))
        ⊎ ((validate_password_strength tools password ≡ ok tt) × IsStrong tools password)
  unfolding validate_password_strength
  validate_cases password = elim (Bool-cases (ltb (length (codes password)) 8)) [
    | inl s ↦ inl (weak_password "密码至少 8 个字符", rw s refl)
    | inr l ↦
        elim (Bool-cases (
          not (search is_letter (codes password))
          || not (search tools.is_decimal (codes password)))) [
            | inl w ↦ inl (weak_password "密码必须同时包含字母和数字", rw (l, w) refl)
            | inr w ↦ inr (
              rw (l, w) refl,
              record { long = ground arith; letter = ground arith; digit = ground arith },
            )
          ]
  ]

  -- The payload is an administrator's, with the name and password given.
  AdminPayload : String → String → UserCreate → Type 0
  AdminPayload username password payload =
      (payload.username ≡ username) × (payload.password ≡ password) × (payload.role ≡ Role.admin)

  user_create_cases :
      (username email password : String)
      → ((e : Exception) × (user_create tools username email password Role.admin ≡ err e))
        ⊎ ((payload : UserCreate) × (user_create tools username email password Role.admin
              ≡ ok payload)
            × AdminPayload username password payload)
  unfolding AdminPayload
  user_create_cases username email password = elim (Option-cases (tools.email_str email)) [
    | inl e ↦ inl (Exception.value_error, rw (e, user_create) refl)
    | inr (address, e) ↦ elim (Bool-cases (in_bounds tools username password)) [
      | inl b ↦ inr (
        record { username = username; email = address; password = password; role = Role.admin },
        rw (e, b, user_create) refl,
        (refl, refl, refl),
      )
      | inr b ↦ inl (Exception.value_error, rw (e, b, user_create) refl)
    ]
  ]

  -- What the checks find: a reason to refuse, or that the table is empty, the password strong and the
  -- payload an administrator's.
  pub Checked : String → String → UserTable → Result UserCreate × UserTable → Type 0
  Checked username password t out =
      ((e : Exception) × (out ≡ (err e, t)))
      ⊎ ((payload : UserCreate) × (out ≡ (ok payload, t))
          × (t.rows ≡ [])
          × IsStrong tools password
          × AdminPayload username password payload)

  check_init-Checked :
      (username email password : String) (t : UserTable)
      → Checked username password t (check_init tools username email password t)
  unfolding check_init Checked
  check_init-Checked username email password t = elim (Bool-cases (is_initialized t)) [
    | inl i ↦ inl (already_initialized "系统已初始化（至少存在一个用户），拒绝重复创建", rw i refl)
    | inr i ↦ elim (validate_cases password) [
      | inl (e, v) ↦ inl (e, rw (i, v) refl)
      | inr (v, strong) ↦ elim (user_create_cases username email password) [
        | inl (e, u) ↦ inl (e, rw (i, v, u) refl)
        | inr (payload, u, p) ↦ inr (payload, rw (i, v, u, i) refl, no_rows t.rows i, strong, p)
      ]
    ]
  ]

  -- What a request leaves: it is refused and the table is as before; or there was no user, and the one
  -- that there is now is an active administrator with the name given and a strong password, whose hash
  -- is stored.
  pub Initialized :
      Bcrypt → String → String → String → UserTable → Result FirstAdmin × UserTable → Type 0
  Initialized bcrypt salt username password t out =
      ((e : Exception) × (out ≡ (err e, t)))
      ⊎ ((first : FirstAdmin) × (out
            ≡ (ok first, record { rows = first.user ∷ []; next_id = suc t.next_id }))
          × (t.rows ≡ [])
          × IsStrong tools password
          × (is_active_admin first.user ≡ true)
          × (first.user.username ≡ username)
          × (first.user.hashed_password ≡ bcrypt.hashpw password salt)
          × IsSound out.1)

  -- A request for the first administrator either raises and changes nothing; or there was no user, the
  -- password has eight characters with a letter and a digit among them, and the only user then is an
  -- active administrator with the name given, the hash of the password, and a table that is sound.
  pub init_first_admin-Initialized :
      (bcrypt : Bcrypt) (salt username email password : String) (t : UserTable)
      → Initialized bcrypt salt username password t
          (init_first_admin tools bcrypt salt username email password t)
  unfolding init_first_admin insert_admin Checked Initialized AdminPayload
  init_first_admin-Initialized bcrypt salt username email password t =
      elim (check_init-Checked username email password t) [
        | inl (e, out) ↦ inl (e, rw out refl)
        | inr (payload, out, empty, strong, (name, pass, role)) ↦
            let user = new_user payload (bcrypt.hashpw payload.password salt) t.next_id in
            let free = not_taken payload t (rw empty refl) (rw empty refl) in
            elim (Bool-cases (is_too_long payload)) [
              | inl long ↦ inl (Exception.data_error, rw (out, long) refl)
              | inr short ↦ inr (
                record {
                  user = user;
                  access_token = tools.access_token user.id user.role;
                  refresh_token = tools.refresh_token user.id;
                },
                rw (out, short, free, empty) refl,
                empty,
                strong,
                rw role refl,
                name,
                ap (λ (p : String). bcrypt.hashpw p salt) pass,
                rw (out, short, free, empty) (single-IsSound user t.next_id (omega arith)),
              )
            ]
      ]

  -- Two requests of which the second makes both of its checks before the user of the first is
  -- committed: `check_init` reads, `insert_admin` writes.
  unfoldable pub overlapping :
      Bcrypt
      → (String × String × String × String)
      → (String × String × String × String)
      → UserTable
      → UserTable
  overlapping bcrypt (salt, username, email, password) (salt', username', email', password') t =
      let first = (check_init tools username email password t).0 in
      let second = (check_init tools username' email' password' t).0 in
      let t' = (continue first (insert_admin tools bcrypt salt) t).1 in
      (continue second (insert_admin tools bcrypt salt') t').1

  check_init-role :
      (username email password : String) (payload : UserCreate) (t : UserTable)
      → (check_init tools username email password t).0 ≡ ok payload
      → (t.rows ≡ []) × (payload.role ≡ Role.admin)
  unfolding Checked AdminPayload
  check_init-role username email password payload t h =
      elim (check_init-Checked username email password t) [
        | inl (e, out) ↦ cc
        | inr (p, out, empty, strong, (name, pass, role)) ↦ (empty, cc)
      ]

  -- When two requests that both pass their checks on the same table overlap so, with names and
  -- addresses of their own that fit their columns, the second check does not help: both insert, and the installation starts
  -- with two active administrators.
  pub overlapping-two_admins :
      (bcrypt : Bcrypt) (salt username email password salt' username' email' password' : String)
      (p q : UserCreate) (t : UserTable)
      → (check_init tools username email password t).0 ≡ ok p
      → (check_init tools username' email' password' t).0 ≡ ok q
      → p.username ≢ q.username
      → p.email ≢ q.email
      → is_too_long p ≡ false
      → is_too_long q ≡ false
      → active_admins (
          overlapping bcrypt
            (salt, username, email, password)
            (salt', username', email', password')
            t)
        ≡ 2
  unfolding overlapping insert_admin
  overlapping-two_admins bcrypt salt username email password salt' username' email' password' p q t
        h k names mails short short' =
      let (empty, role) = check_init-role username email password p t h in
      let (_, role') = check_init-role username' email' password' q t k in
      let first = new_user p (bcrypt.hashpw p.password salt) t.next_id in
      let t' : UserTable = record { rows = t.rows ++ first ∷ []; next_id = suc t.next_id } in
      let free = not_taken p t (rw empty refl) (rw empty refl) in
      let free' =
        not_taken q t' (rw (empty, texts_apart p.username q.username names) refl)
          (rw (empty, texts_apart p.email q.email mails) refl) in
      let admins : Result UserCreate → Result UserCreate → ℕ = λ r r'.
        active_admins
          (continue r' (insert_admin tools bcrypt salt')
            (continue r (insert_admin tools bcrypt salt) t).1).1 in
      ap (λ (r : Result UserCreate). admins r (check_init tools username' email' password' t).0) h
      ∙ ap (λ (r : Result UserCreate). admins (ok p) r) k
      ∙ rw (short, free) (rw (short', free') (rw (empty, role, role') refl))
