-- ===== src/Users/Tests.antt =====
-- Runs of the user and setup services, and their theorems at such inputs: one administrator and one
-- member.
use zhiwei_backend.Prelude.{
  suc, ◌≤◌, ◌≡◌, refl, Bool, true, false, [], ◌∷◌, none, some, String, str_eq, eq_iff, arith, ok,
  err, if◌then◌else◌, auth_exception, length, leb, biz_exception, ap, ◌&&◌,
}
use zhiwei_backend.Prelude.Rows.{count, select}
use zhiwei_backend.Prelude.Rows.Pages.{Sorted}
use zhiwei_backend.Users.Table.{User, UserTable, Role, UserCreate, UserAdminUpdate, user_id}
use zhiwei_backend.Users.Service.{
  Bcrypt, is_too_long, create_user, authenticate, admin_update_user, admin_delete_user,
  admin_reset_password,
}
use zhiwei_backend.Users.Invariant.{IsSound, active_admins, Kept}
use zhiwei_backend.Users.Calls.{admin_update_user-Kept}
use zhiwei_backend.Users.Requests.{Request, Reachable, handle, Reachable-IsSound}
use zhiwei_backend.Users.Operator.{IsAdmin, admin_update_user-IsAdmin, admin_delete_user-IsAdmin}
use zhiwei_backend.Users.Listing.{
  UserListQuery, list_users, first_pages, selected, list_users-pages,
}
use zhiwei_backend.Users.Passwords.{
  Verifies, create_user-authenticate, admin_reset_password-authenticate,
}
use zhiwei_backend.Users.Setup.{Toolkit, check_init, init_first_admin, validate_password_strength}
use zhiwei_backend.Users.Bootstrap.{
  Initialized, init_first_admin-Initialized, overlapping, overlapping-two_admins,
}

-- A hash that is the salt before the password.
abbrev plain : Bcrypt
plain = record { hashpw = λ password salt. password; checkpw = str_eq }

plain-Verifies : Verifies plain
unfolding Verifies
plain-Verifies password salt = (eq_iff password password).1 refl

abbrev root : User
root = record {
  id = 1;
  username = "root";
  email = "root@a";
  hashed_password = "secret";
  role = "admin";
  is_active = true;
}

abbrev guest : User
guest = record {
  id = 2;
  username = "guest";
  email = "guest@a";
  hashed_password = "hidden";
  role = "user";
  is_active = true;
}

abbrev table : UserTable
table = record { rows = root ∷ guest ∷ []; next_id = 3 }

texts_differ : (x y : String) → x ≡ y → str_eq x y ≡ false → ⊥
texts_differ x y e h = absurd (ground (arith, (eq_iff x y).1 e))

distinct_texts :
    (x y n : String)
    → str_eq x y ≡ false
    → (if str_eq x n then suc (if str_eq y n then 1 else 0) else if str_eq y n then 1 else 0) ≤ 1
distinct_texts x y n h =
    ground (arith, (eq_iff x n).0, (eq_iff y n).0, ap (λ (m : String). str_eq x m), eq_iff x y)

table-IsSound : IsSound table
table-IsSound = record {
  distinct = (((λ e. absurd (omega (arith, e))), tt), (tt, tt));
  below = (omega arith, (omega arith, tt));
  named = λ n. distinct_texts "root" "guest" n refl;
  mailed = λ n. distinct_texts "root@a" "guest@a" n refl;
}

abbrev demotion : UserAdminUpdate
demotion = record { email = none; role = some Role.user; is_active = none }

abbrev newcomer : UserCreate
newcomer = record { username = "new"; email = "new@a"; password = "pass1234"; role = Role.user }

abbrev query : UserListQuery
query = record { username = none; role = none; is_active = some true; page = 1; size = 1 }

abbrev tools : Toolkit
tools = record {
  is_decimal = λ c. leb 48 c && leb c 57;
  email_str = λ s. some s;
  access_token = λ i role. role;
  refresh_token = λ i. "refresh";
}

abbrev empty : UserTable
empty = record { rows = []; next_id = 1 }

-- The only administrator may not be demoted by another one.
last_admin_run :
    (admin_update_user (record root { id = 9 }) 1 demotion table).0
    ≡ err (biz_exception "LAST_ADMIN" "至少需要保留一个活跃管理员" 409)
unfolding admin_update_user
last_admin_run = refl

weak_run :
    (init_first_admin tools plain "s" "root" "root@a" "password" empty).0
    ≡ err (biz_exception "WEAK_PASSWORD" "密码必须同时包含字母和数字" 422)
unfolding init_first_admin check_init validate_password_strength
weak_run = refl

Reachable-IsSound_example :
    let t = handle plain (Request.delete (λ i. ok tt) root 2) table in
    IsSound t × (1 ≤ active_admins t)
Reachable-IsSound_example =
    Reachable-IsSound plain table (handle plain (Request.delete (λ i. ok tt) root 2) table)
      table-IsSound (omega arith)
      (Reachable.after (Request.delete (λ i. ok tt) root 2) table Reachable.here)

admin_update_user-Kept_example : Kept table (admin_update_user root 1 demotion table)
admin_update_user-Kept_example = admin_update_user-Kept root 1 demotion table table-IsSound

root-IsAdmin : IsAdmin 1 table
unfolding IsAdmin
root-IsAdmin = (root, refl, refl)

admin_update_user-IsAdmin_example : IsAdmin 1 (admin_update_user root 1 demotion table).1
admin_update_user-IsAdmin_example = admin_update_user-IsAdmin root 1 demotion table root-IsAdmin

admin_delete_user-IsAdmin_example : IsAdmin 1 (admin_delete_user (λ i. ok tt) root 1 table).1
admin_delete_user-IsAdmin_example = admin_delete_user-IsAdmin (λ i. ok tt) root 1 table root-IsAdmin

create_user-authenticate_example :
    let out = create_user plain "s" newcomer table in
    (u : User) × (out.0 ≡ ok u) × (authenticate plain "new" "pass1234" out.1 ≡ (ok u, out.1))
create_user-authenticate_example =
    create_user-authenticate plain plain-Verifies "s" newcomer table refl refl (omega arith)
      (omega arith)

admin_reset_password-authenticate_example :
    let out = admin_reset_password plain "s" root 2 "pass5678" table in
    let u = record guest { hashed_password = "pass5678" } in
    (out.0 ≡ ok tt)
    × (authenticate plain "guest" "pass5678" out.1
        ≡ (if true then ok u else err (auth_exception "用户已停用"), out.1))
admin_reset_password-authenticate_example =
    admin_reset_password-authenticate plain plain-Verifies "s" root 2 "pass5678" table guest
      table-IsSound refl

listed : (list_users query table).1 ≡ 2
unfolding list_users
listed = refl

list_users-pages_example :
    Sorted user_id (first_pages 2 query table)
    × (length (first_pages 2 query table) ≡ (list_users query table).1)
    × ((p : User → Bool)
        → count p (first_pages 2 query table) ≡ count p (select (selected query) table.rows))
list_users-pages_example = list_users-pages query 2 table (omega (arith, listed))

init_first_admin-Initialized_example :
    Initialized tools plain "s" "root" "pass1234" empty
      (init_first_admin tools plain "s" "root" "root@a" "pass1234" empty)
init_first_admin-Initialized_example =
    init_first_admin-Initialized tools plain "s" "root" "root@a" "pass1234" empty

abbrev first : UserCreate
first = record { username = "root"; email = "root@a"; password = "pass1234"; role = Role.admin }

abbrev second : UserCreate
second = record { username = "boss"; email = "boss@a"; password = "pass1234"; role = Role.admin }

first_checked : (check_init tools "root" "root@a" "pass1234" empty).0 ≡ ok first
unfolding check_init validate_password_strength
first_checked = refl

second_checked : (check_init tools "boss" "boss@a" "pass1234" empty).0 ≡ ok second
unfolding check_init validate_password_strength
second_checked = refl

first_fits : is_too_long first ≡ false
unfolding is_too_long
first_fits = refl

second_fits : is_too_long second ≡ false
unfolding is_too_long
second_fits = refl

overlapping-two_admins_example :
    active_admins (
      overlapping tools plain
        ("s", "root", "root@a", "pass1234")
        ("s", "boss", "boss@a", "pass1234")
        empty)
    ≡ 2
overlapping-two_admins_example =
    overlapping-two_admins tools plain "s" "root" "root@a" "pass1234" "s" "boss" "boss@a" "pass1234"
      first second empty first_checked second_checked (λ e. texts_differ "root" "boss" e refl)
      (λ e. texts_differ "root@a" "boss@a" e refl) first_fits second_fits
