-- ===== src/Users/Setup.antt =====
-- app/services/setup_service.py: the first administrator of a new installation.
use zhiwei_backend.Prelude.{
  Done, ℕ, Bool, false, not, ◌&&◌, ◌||◌, List, [], ◌∷◌, Option, none, some, String, ltb, leb,
  if◌then◌else◌, Action, Result, Exception, ok, err, biz_exception, pure, lift, gets, raise_if,
  length, ◌>>=◌, ◌>>◌,
}
use zhiwei_backend.Prelude.Texts.{codes}
use zhiwei_backend.Users.Table.{User, UserTable, Role, UserCreate}
use zhiwei_backend.Users.Service.{Bcrypt, insert_user}

-- What the service uses of Python, pydantic and PyJWT: the characters that `\d` matches, the address
-- that `EmailStr` makes of a text, and the tokens for a user.
pub record Toolkit : Type 0 where
  pub is_decimal : ℕ → Bool
  pub email_str : String → Option String
  pub access_token : ℕ → String → String
  pub refresh_token : ℕ → String

pub record FirstAdmin : Type 0 where
  pub user : User
  pub access_token : String
  pub refresh_token : String

-- `re.search` of a class of characters
abbrev pub search : (ℕ → Bool) → List ℕ → Bool
search p [] = false
search p (c ∷ cs) = p c || search p cs

-- `[A-Za-z]`
abbrev pub is_letter : ℕ → Bool
is_letter c = (leb 65 c && leb c 90) || (leb 97 c && leb c 122)

abbrev pub password_min_length : ℕ
password_min_length = 8

abbrev pub is_initialized : UserTable → Bool
is_initialized t = ltb 0 (length t.rows)

abbrev pub already_initialized : String → Exception
already_initialized message = biz_exception "ALREADY_INITIALIZED" message 409

abbrev pub weak_password : String → Exception
weak_password message = biz_exception "WEAK_PASSWORD" message 422

module _ (tools : Toolkit) where
  open tools use {is_decimal, email_str}

  unfoldable pub validate_password_strength : String → Result Done
  validate_password_strength password =
      if ltb (length (codes password)) password_min_length
      then err (weak_password "密码至少 8 个字符")
      else if not (search is_letter (codes password)) || not (search is_decimal (codes password))
      then err (weak_password "密码必须同时包含字母和数字")
      else ok tt

  -- The bounds on lengths that `UserCreate` of app/schemas/user.py declares.
  abbrev pub in_bounds : String → String → Bool
  in_bounds username password =
      (leb 3 (length (codes username)) && leb (length (codes username)) 64)
      && (leb 8 (length (codes password)) && leb (length (codes password)) 128)

  -- `UserCreate(…)`; pydantic's `ValidationError` is a `ValueError`
  abbrev pub user_create : String → String → String → Role → Result UserCreate
  user_create username email password role = elim (email_str email) [
    | none ↦ err Exception.value_error
    | some address ↦
        if in_bounds username password
        then ok (record { username = username; email = address; password = password; role = role })
        else err Exception.value_error
  ]

  -- the part of `init_first_admin` before the insert, which only reads
  unfoldable pub check_init : String → String → String → Action UserTable UserCreate
  check_init username email password = do
    initialized ← gets is_initialized
    raise_if initialized (already_initialized "系统已初始化（至少存在一个用户），拒绝重复创建")
    lift (validate_password_strength password)
    payload ← lift (user_create username email password Role.admin)
    again ← gets is_initialized
    raise_if again (already_initialized "系统已初始化")
    pure payload

  -- the insert and the tokens
  unfoldable pub insert_admin : Bcrypt → String → UserCreate → Action UserTable FirstAdmin
  insert_admin bcrypt salt payload = do
    user ← insert_user payload (bcrypt.hashpw payload.password salt)
    pure (record {
      user = user;
      access_token = tools.access_token user.id user.role;
      refresh_token = tools.refresh_token user.id;
    })

  unfoldable pub init_first_admin :
      Bcrypt → String → String → String → String → Action UserTable FirstAdmin
  init_first_admin bcrypt salt username email password = do
    payload ← check_init username email password
    insert_admin bcrypt salt payload
