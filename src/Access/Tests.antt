-- ===== src/Access/Tests.antt =====
-- The guards at a member with the permission to write, and a token of that member.
use zhiwei_backend.Prelude.{
  ◌≡◌, ◌⊎◌, refl, true, false, List, [], ◌∷◌, Option, some, String, str_eq, arith, ok, err,
}
use zhiwei_backend.Users.Table.{User, UserTable}
use zhiwei_backend.Access.Guards.{
  UserProject, Claims, forbidden, check_project_access, check_project_write_access,
  check_project_admin, get_current_user,
}
use zhiwei_backend.Access.Hierarchy.{
  HasLink, IsNoWriter, writes, check_project_hierarchy, check_project_write_access-decides,
}
use zhiwei_backend.Access.Identity.{IsIdentified, get_current_user-IsIdentified}

abbrev member : User
member = record {
  id = 2;
  username = "guest";
  email = "guest@a";
  hashed_password = "hidden";
  role = "user";
  is_active = true;
}

abbrev table : UserTable
table = record { rows = member ∷ []; next_id = 3 }

abbrev links : List UserProject
links = record { user_id = 2; project_id = 5; permission = "write" } ∷ []

abbrev decode : String → Option Claims
decode token = some (record { sub = ok 2; type = some "access" })

write_run : check_project_admin member 5 links ≡ err (forbidden "需要子项管理员权限")
unfolding check_project_admin
write_run = refl

check_project_hierarchy_example :
    (check_project_admin member 5 links ≡ ok tt → check_project_write_access member 5 links ≡ ok tt)
    × (check_project_write_access member 5 links ≡ ok tt
        → check_project_access member 5 links ≡ ok tt)
check_project_hierarchy_example = check_project_hierarchy member 5 links

check_project_write_access-decides_example :
    (((str_eq member.role "admin" ≡ true) ⊎ HasLink member 5 writes links)
      × (check_project_write_access member 5 links ≡ ok tt))
    ⊎ ((str_eq member.role "admin" ≡ false)
        × IsNoWriter member 5 links
        × (check_project_write_access member 5 links ≡ err (forbidden "需要子项写权限")))
check_project_write_access-decides_example =
    check_project_write_access-decides member 5 links (omega arith)

let_in : get_current_user decode (some "token") table ≡ ok member
unfolding get_current_user
let_in = refl

get_current_user-IsIdentified_example : IsIdentified decode "token" table member
get_current_user-IsIdentified_example =
    get_current_user-IsIdentified decode "token" table member let_in
