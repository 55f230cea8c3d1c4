-- ===== src/Users/Service.antt =====
-- `UserService` of app/services/user_service.py. Hashing is bcrypt's, over app/core/security.py; the
-- salt that `bcrypt.gensalt()` draws is an argument.
use zhiwei_backend.Prelude.{
  Done, ℕ, suc, ◌+◌, Result, err, length, lift, Bool, true, false, not, ◌&&◌, ◌||◌, [], ◌∷◌, ◌++◌,
  Option, none, some, String, str_eq, ltb, ◌==◌, if◌then◌else◌, Action, Exception, ok,
  biz_exception, auth_exception, pure, raise, raise_if, some_or, scalar_one_or_none, ◌>>=◌, ◌>>◌,
}
use zhiwei_backend.Prelude.Texts.{codes}
use zhiwei_backend.Prelude.Rows.{select, count, get, put, delete}
use zhiwei_backend.Users.Table.{
  User, UserTable, Role, UserCreate, UserAdminUpdate, role_value, user_id, is_named, is_mailed,
  count_active_admins,
}

-- `bcrypt.hashpw` of a password and a salt, and `bcrypt.checkpw` of a password and a hash.
pub record Bcrypt : Type 0 where
  pub hashpw : String → String → String
  pub checkpw : String → String → Bool

abbrev pub user_not_found : Exception
user_not_found = biz_exception "USER_NOT_FOUND" "用户不存在" 404

abbrev pub get_by_username : String → Action UserTable (Option User)
get_by_username username t = (scalar_one_or_none (select (is_named username) t.rows), t)

abbrev pub get_by_id : ℕ → Action UserTable (Option User)
get_by_id i t = (ok (get user_id i t.rows), t)

abbrev pub find_user : ℕ → Action UserTable User
find_user i t = some_or (get user_id i t.rows) user_not_found t

-- `if … is not None: raise …`
abbrev pub refuse_found : Option User → Exception → Action UserTable Done
refuse_found none e = pure tt
refuse_found (some u) e = raise e

abbrev pub new_user : UserCreate → String → ℕ → User
new_user payload hashed i = record {
  id = i;
  username = payload.username;
  email = payload.email;
  hashed_password = hashed;
  role = role_value payload.role;
  is_active = true;
}

-- more characters than a column `String(n)` holds
abbrev pub is_long : ℕ → String → Bool
is_long n s = ltb n (length (codes s))

-- the columns `username` and `email`; a hash of bcrypt fits its column
unfoldable pub is_too_long : UserCreate → Bool
is_too_long payload = is_long 64 payload.username || is_long 128 payload.email

-- the UNIQUE constraints of these columns
unfoldable pub is_taken : UserCreate → UserTable → Bool
is_taken payload t =
    ltb 0 (count (is_named payload.username) t.rows + count (is_mailed payload.email) t.rows)

-- `db.add`, `db.flush`
abbrev pub insert_user : UserCreate → String → Action UserTable User
insert_user payload hashed t =
    let u = new_user payload hashed t.next_id in
    if is_too_long payload
    then (err Exception.data_error, t)
    else if is_taken payload t
    then (err Exception.integrity_error, t)
    else (ok u, record { rows = t.rows ++ u ∷ []; next_id = suc t.next_id })

abbrev pub flush : User → Action UserTable Done
flush u t = (ok tt, record t { rows = put user_id u t.rows })

abbrev pub remove : User → Action UserTable Done
remove u t = (ok tt, record t { rows = delete user_id u.id t.rows })

-- `payload.role is not None and payload.role.value != Role.ADMIN.value`
abbrev pub demotes : Option Role → Bool
demotes none = false
demotes (some r) = not (str_eq (role_value r) "admin")

-- `payload.role is not None and payload.role.value != target.role`
abbrev pub changes_role : Option Role → String → Bool
changes_role none role = false
changes_role (some r) role = not (str_eq (role_value r) role)

-- `payload.is_active is False`
abbrev pub deactivates : Option Bool → Bool
deactivates none = false
deactivates (some b) = not b

abbrev pub will_lose_admin : UserAdminUpdate → User → Bool
will_lose_admin payload target =
    (demotes payload.role || deactivates payload.is_active) && str_eq target.role "admin"

abbrev pub self_protected : String → Exception
self_protected message = biz_exception "SELF_PROTECTED" message 409

-- the check that another active admin remains
abbrev pub guard_last_admin : Bool → ℕ → Action UserTable Done
guard_last_admin loses i t =
    raise_if (loses && ltb (count_active_admins (some i) t) 1)
      (biz_exception "LAST_ADMIN" "至少需要保留一个活跃管理员" 409) t

abbrev pub others_mailed : String → User → Action UserTable (Option User)
others_mailed email target t =
    (scalar_one_or_none (select (λ u. is_mailed email u && not (u.id == target.id)) t.rows), t)

abbrev pub email_exists : Exception
email_exists = biz_exception "EMAIL_EXISTS" "邮箱已存在" 409

-- That an address is too long for its column comes out at the `flush`, before which nothing else is written.
unfoldable pub change_email : Option String → User → Action UserTable User
change_email none target = pure target
change_email (some email) target = if str_eq email target.email then pure target else do
  found ← others_mailed email target
  refuse_found found email_exists
  raise_if (is_long 128 email) Exception.data_error
  pure (record target { email = email })

abbrev pub role_after : Option Role → String → String
role_after none role = role
role_after (some r) role = role_value r

abbrev pub active_after : Option Bool → Bool → Bool
active_after none is_active = is_active
active_after (some b) is_active = b

abbrev pub applied : UserAdminUpdate → User → User
applied payload u = record u {
  role = role_after payload.role u.role;
  is_active = active_after payload.is_active u.is_active;
}

unfoldable pub admin_update_user : User → ℕ → UserAdminUpdate → Action UserTable User
admin_update_user operator target_id payload = do
  target ← find_user target_id
  let is_self = target.id == operator.id
  raise_if (changes_role payload.role target.role && (is_self && demotes payload.role))
      (self_protected "不能修改自己的管理员角色")
  raise_if (deactivates payload.is_active && target.is_active && is_self) (self_protected "不能停用自己")
  guard_last_admin (will_lose_admin payload target) target.id
  changed ← change_email payload.email target
  flush (applied payload changed)
  pure (applied payload changed)

-- `references` is the answer of the database to the deletion of a user, an IntegrityError where a row of
-- another table refers to it without CASCADE.
unfoldable pub admin_delete_user : (ℕ → Result Done) → User → ℕ → Action UserTable Done
admin_delete_user references operator target_id = do
  target ← find_user target_id
  raise_if (target.id == operator.id) (self_protected "不能删除自己")
  guard_last_admin (str_eq target.role "admin") target.id
  lift (references target.id)
  remove target

module _ (bcrypt : Bcrypt) where
  open bcrypt use {hashpw, checkpw}

  abbrev pub check_credentials : String → Option User → Action UserTable User
  check_credentials password none = raise (auth_exception "用户名或密码错误")
  check_credentials password (some u) = do
    raise_if (not (checkpw password u.hashed_password)) (auth_exception "用户名或密码错误")
    raise_if (not u.is_active) (auth_exception "用户已停用")
    pure u

  unfoldable pub authenticate : String → String → Action UserTable User
  authenticate username password = do
    found ← get_by_username username
    check_credentials password found

  unfoldable pub create_user : String → UserCreate → Action UserTable User
  create_user salt payload = do
    found ← get_by_username payload.username
    refuse_found found (biz_exception "USER_EXISTS" "用户名已存在" 409)
    mailed ← (λ t. (scalar_one_or_none (select (is_mailed payload.email) t.rows), t))
    refuse_found mailed email_exists
    insert_user payload (hashpw payload.password salt)

  unfoldable pub admin_reset_password : String → User → ℕ → String → Action UserTable Done
  admin_reset_password salt operator target_id new_password = do
    target ← find_user target_id
    flush (record target { hashed_password = hashpw new_password salt })
