-- ===== src/Projects/Members.antt =====
-- `get_project` and `assign_user` of app/services/project_service.py, over the keys of the projects, the
-- users and the rows of `UserProject`.
use zhiwei_backend.Prelude.{
  Done, ℕ, Bool, ◌&&◌, List, [], ◌∷◌, ◌++◌, Option, none, some, String, ◌==◌, if◌then◌else◌, Action,
  biz_exception, modify, some_or, ◌>>◌,
}
use zhiwei_backend.Prelude.Rows.{find, get}
use zhiwei_backend.Users.Table.{User, UserTable, user_id}
use zhiwei_backend.Access.Guards.{UserProject}

pub record Membership : Type 0 where
  pub projects : List ℕ
  pub users : UserTable
  pub links : List UserProject

-- `project = await db.get(Project, project_id)`
abbrev pub get_project : ℕ → Action Membership ℕ
get_project i s =
    some_or (find (λ k. k == i) s.projects) (biz_exception "PROJECT_NOT_FOUND" "子项不存在" 404) s

abbrev pub existing_user : ℕ → Action Membership User
existing_user i s =
    some_or (get user_id i s.users.rows) (biz_exception "USER_NOT_FOUND" "用户不存在" 404) s

-- the primary key of a link
abbrev pub is_key : ℕ → ℕ → UserProject → Bool
is_key user project l = (l.user_id == user) && (l.project_id == project)

-- `link.permission = permission`
abbrev pub put_permission : ℕ → ℕ → String → List UserProject → List UserProject
put_permission user project permission [] = []
put_permission user project permission (l ∷ links) =
    (if is_key user project l then record l { permission = permission } else l)
    ∷ put_permission user project permission links

abbrev pub new_link : ℕ → ℕ → String → UserProject
new_link user project permission = record {
  user_id = user;
  project_id = project;
  permission = permission;
}

-- the new link, or the new permission of the one that is there
abbrev pub link_with : Option UserProject → ℕ → ℕ → String → List UserProject → List UserProject
link_with none user project permission links = links ++ new_link user project permission ∷ []
link_with (some l) user project permission links = put_permission user project permission links

unfoldable pub set_link : ℕ → ℕ → String → List UserProject → List UserProject
set_link user project permission links =
    link_with (find (is_key user project) links) user project permission links

unfoldable pub assign_user : ℕ → ℕ → String → Action Membership Done
assign_user project user permission = do
  get_project project
  existing_user user
  modify (λ s. record s { links = set_link user project permission s.links })
