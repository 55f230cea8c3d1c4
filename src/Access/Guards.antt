-- ===== src/Access/Guards.antt =====
-- The guards of app/dependencies.py. PyJWT's `decode`, with the key and the clock, is an argument: it
-- gives the claims, or `none` for a `PyJWTError`, whose text is left out of the message.
use zhiwei_backend.Prelude.{
  Done, ℕ, Bool, false, not, ◌&&◌, ◌||◌, List, Option, none, some, String, str_eq, ◌==◌,
  if◌then◌else◌, Exception, Result, ok, err, then_result, scalar_one_or_none, biz_exception,
  auth_exception,
}
use zhiwei_backend.Prelude.Rows.{select, get}
use zhiwei_backend.Users.Table.{User, UserTable, user_id}

-- `UserProject` of app/models/project.py
pub record UserProject : Type 0 where
  pub user_id : ℕ
  pub project_id : ℕ
  pub permission : String

-- The claims that the code reads; `sub` is what `int` makes of the subject.
pub record Claims : Type 0 where
  pub sub : Result ℕ
  pub type : Option String

abbrev pub forbidden : String → Exception
forbidden message = biz_exception "FORBIDDEN" message 403

-- `payload.get("type") != expected_type`
abbrev pub has_type : Option String → String → Bool
has_type none expected_type = false
has_type (some t) expected_type = str_eq t expected_type

abbrev pub checked_claims : Option Claims → String → Result Claims
checked_claims none expected_type = err (auth_exception "令牌无效或已过期")
checked_claims (some payload) expected_type =
    if has_type payload.type expected_type then ok payload else err (auth_exception "令牌类型错误")

abbrev pub decode_token : (String → Option Claims) → String → String → Result Claims
decode_token decode token expected_type = checked_claims (decode token) expected_type

abbrev pub active_user : Option User → Result User
active_user none = err (auth_exception "用户不存在或已停用")
active_user (some u) = if u.is_active then ok u else err (auth_exception "用户不存在或已停用")

abbrev pub user_of_token : (String → Option Claims) → String → UserTable → Result User
user_of_token decode token t =
    then_result (decode_token decode token "access")
      (λ payload. then_result payload.sub (λ i. active_user (get user_id i t.rows)))

-- `if not token`: no token, or an empty one
unfoldable pub get_current_user : (String → Option Claims) → Option String → UserTable → Result User
get_current_user decode none t = err (auth_exception "缺少访问令牌")
get_current_user decode (some token) t =
    if str_eq token "" then err (auth_exception "缺少访问令牌") else user_of_token decode token t

unfoldable pub require_admin : User → Result User
require_admin current_user =
    if str_eq current_user.role "admin" then ok current_user else err (forbidden "需要管理员权限")

unfoldable pub verify_api_key : String → Option String → Result String
verify_api_key edge_api_key none = err (auth_exception "API Key 无效")
verify_api_key edge_api_key (some key) =
    if str_eq key "" || not (str_eq key edge_api_key)
    then err (auth_exception "API Key 无效")
    else ok key

abbrev pub is_link : User → ℕ → UserProject → Bool
is_link user project_id l = (l.user_id == user.id) && (l.project_id == project_id)

abbrev pub link_of : User → ℕ → List UserProject → Result (Option UserProject)
link_of user project_id links = scalar_one_or_none (select (is_link user project_id) links)

abbrev pub any_link : Option UserProject → Result Done
any_link none = err (forbidden "无权访问该子项")
any_link (some l) = ok tt

unfoldable pub check_project_access : User → ℕ → List UserProject → Result Done
check_project_access user project_id links =
    if str_eq user.role "admin" then ok tt else then_result (link_of user project_id links) any_link

abbrev pub may_write : Option UserProject → Result Done
may_write none = err (forbidden "需要子项写权限")
may_write (some l) =
    if str_eq l.permission "write" || str_eq l.permission "admin"
    then ok tt
    else err (forbidden "需要子项写权限")

unfoldable pub check_project_write_access : User → ℕ → List UserProject → Result Done
check_project_write_access user project_id links =
    if str_eq user.role "admin"
    then ok tt
    else then_result (link_of user project_id links) may_write

abbrev pub may_administer : Option UserProject → Result Done
may_administer none = err (forbidden "需要子项管理员权限")
may_administer (some l) = if str_eq l.permission "admin" then ok tt else err (forbidden "需要子项管理员权限")

unfoldable pub check_project_admin : User → ℕ → List UserProject → Result Done
check_project_admin user project_id links =
    if str_eq user.role "admin"
    then ok tt
    else then_result (link_of user project_id links) may_administer
