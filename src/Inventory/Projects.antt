-- ===== src/Inventory/Projects.antt =====
-- `ProjectService` of app/services/project_service.py, but for `assign_user`. The answer of the database
-- to the deletion of a project that other tables refer to (its 3D models) is an argument.
use zhiwei_backend.Prelude.{
  Done, ℕ, Bool, ◌||◌, ltb, List, some, String, str_eq, ◌==◌, Action, Exception, Result, ok,
  biz_exception, pure, raise_if, lift, gets, modify, some_or, ◌>>=◌, ◌>>◌,
}
use zhiwei_backend.Prelude.Rows.{select, count, get, put, delete}
use zhiwei_backend.Prelude.Rows.Pages.{order_by, page_of}
use zhiwei_backend.Prelude.Rows.Tables.{insert, discard, child_of}
use zhiwei_backend.Users.Table.{User}
use zhiwei_backend.Access.Guards.{UserProject, is_link}
use zhiwei_backend.Inventory.Records.{Project, Inventory, project_key, device_project}
use zhiwei_backend.Inventory.Payloads.{ProjectCreate, ProjectUpdate, set_nullable, set_required}

abbrev pub is_link_of : ℕ → UserProject → Bool
is_link_of i l = l.project_id == i

module _ {Json : Type 0} where
  abbrev pub get_project : ℕ → Action (Inventory Json) (Project Json)
  get_project i s =
      some_or (get project_key i s.projects.rows) (biz_exception "PROJECT_NOT_FOUND" "子项不存在" 404) s

  -- the rows that the join with `user_projects` keeps; its primary key allows one link at most
  abbrev pub is_visible : User → List UserProject → Project Json → Bool
  is_visible user links p = str_eq user.role "admin" || ltb 0 (count (is_link user p.id) links)

  unfoldable pub list_projects : User → ℕ → ℕ → Inventory Json → List (Project Json) × ℕ
  list_projects user page size s = (
    page_of page size (order_by project_key (select (is_visible user s.links) s.projects.rows)),
    count (is_visible user s.links) s.projects.rows,
  )

  abbrev pub new_project : ProjectCreate Json → ℕ → ℕ → Project Json
  new_project payload creator i = record {
    id = i;
    name = payload.name;
    description = payload.description;
    location = payload.location;
    created_by = some creator;
  }

  unfoldable pub create_project : ProjectCreate Json → User → Action (Inventory Json) (Project Json)
  create_project payload creator s =
      let p = new_project payload creator.id s.projects.next_id in
      (ok p, record s { projects = insert p s.projects })

  abbrev pub renamed : ProjectUpdate Json → String → Project Json → Project Json
  renamed payload name p = record p {
    name = name;
    description = set_nullable payload.description p.description;
    location = set_nullable payload.location p.location;
  }

  abbrev pub flush : Project Json → Action (Inventory Json) Done
  flush p =
      modify (λ s. record s {
        projects = record s.projects { rows = put project_key p s.projects.rows };
      })

  unfoldable pub update_project : ℕ → ProjectUpdate Json → Action (Inventory Json) (Project Json)
  update_project i payload = do
    p ← get_project i
    name ← lift (set_required payload.name p.name)
    flush (renamed payload name p)
    pure (renamed payload name p)

  -- The links go with the project; the devices of a project would lose their NOT NULL reference.
  unfoldable pub delete_project : (ℕ → Result Done) → ℕ → Action (Inventory Json) Done
  delete_project references i = do
    p ← get_project i
    devices ← gets (λ s. count (child_of device_project p.id) s.devices.rows)
    raise_if (ltb 0 devices) Exception.integrity_error
    lift (references p.id)
    modify (λ s. record s {
      projects = record s.projects { rows = delete project_key p.id s.projects.rows };
      links = discard (is_link_of p.id) s.links;
    })
