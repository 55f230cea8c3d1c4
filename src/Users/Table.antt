-- ===== src/Users/Table.antt =====
-- The table of app/models/user.py, the payloads of app/schemas/user.py and the queries on the table.
use zhiwei_backend.Prelude.{
  ℕ, Bool, true, not, ◌&&◌, List, Option, none, some, String, str_eq, ◌==◌,
}
use zhiwei_backend.Prelude.Rows.{count}

pub record User : Type 0 where
  pub id : ℕ
  pub username : String
  pub email : String
  pub hashed_password : String
  pub role : String
  pub is_active : Bool

-- `next_id` is the sequence of the primary key.
pub record UserTable : Type 0 where
  pub rows : List User
  pub next_id : ℕ

-- `Role` of app/core/constants.py
pub data Role : Type 0 where
  admin user : Role

abbrev pub role_value : Role → String
role_value admin = "admin"
role_value user = "user"

pub record UserCreate : Type 0 where
  pub username : String
  pub email : String
  pub password : String
  pub role : Role

pub record UserAdminUpdate : Type 0 where
  pub email : Option String
  pub role : Option Role
  pub is_active : Option Bool

abbrev pub user_id : User → ℕ
user_id u = u.id

abbrev pub is_named : String → User → Bool
is_named username u = str_eq u.username username

abbrev pub is_mailed : String → User → Bool
is_mailed email u = str_eq u.email email

abbrev pub is_active_admin : User → Bool
is_active_admin u = str_eq u.role "admin" && u.is_active

abbrev is_not : Option ℕ → User → Bool
is_not none u = true
is_not (some i) u = not (u.id == i)

-- `_count_active_admins`
abbrev pub count_active_admins : Option ℕ → UserTable → ℕ
count_active_admins exclude_user_id t =
    count (λ u. is_active_admin u && is_not exclude_user_id u) t.rows
