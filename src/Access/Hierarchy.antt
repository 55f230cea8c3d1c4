-- ===== src/Access/Hierarchy.antt =====
-- The three levels of access to a project.
use zhiwei_backend.Prelude.{
  ℕ, ◌≤◌, ◌≡◌, refl, Bool, true, false, ◌||◌, ◌⊎◌, inl, inr, List, [], ◌∷◌, Option, none, some,
  String, str_eq, arith, Bool-cases, Result, ok, err, then_result, scalar_one_or_none, length,
}
use zhiwei_backend.Prelude.Rows.{select, count}
use zhiwei_backend.Prelude.Rows.Laws.{length-select}
use zhiwei_backend.Users.Table.{User}
use zhiwei_backend.Access.Guards.{
  UserProject, forbidden, is_link, link_of, any_link, may_write, may_administer,
  check_project_access, check_project_write_access, check_project_admin,
}

write-any_link :
    (r : Result (Option UserProject))
    → then_result r may_write ≡ ok tt
    → then_result r any_link ≡ ok tt
write-any_link (ok none) h = cc
write-any_link (ok (some l)) h = refl
write-any_link (err e) h = cc

admin-may_write :
    (r : Result (Option UserProject))
    → then_result r may_administer ≡ ok tt
    → then_result r may_write ≡ ok tt
admin-may_write (ok none) h = cc
admin-may_write (ok (some l)) h = ground arith
admin-may_write (err e) h = cc

-- Who may administer a project may write to it, and who may write to it may read it.
pub check_project_hierarchy :
    (user : User) (project_id : ℕ) (links : List UserProject)
    → (check_project_admin user project_id links ≡ ok tt
        → check_project_write_access user project_id links ≡ ok tt)
      × (check_project_write_access user project_id links ≡ ok tt
          → check_project_access user project_id links ≡ ok tt)
unfolding check_project_admin check_project_write_access check_project_access
check_project_hierarchy user project_id links = elim (Bool-cases (str_eq user.role "admin")) [
  | inl a ↦ (λ h. rw a refl, λ h. rw a refl)
  | inr a ↦ rw a (
    (λ h. admin-may_write (link_of user project_id links) h),
    (λ h. write-any_link (link_of user project_id links) h),
  )
]

-- A link of the user to the project with one of these permissions is there.
pub HasLink : User → ℕ → (String → Bool) → List UserProject → Type 0
HasLink user project_id allowed links =
    (l : UserProject) × (select (is_link user project_id) links ≡ l ∷ [])
    × (allowed l.permission ≡ true)

abbrev pub writes : String → Bool
writes permission = str_eq permission "write" || str_eq permission "admin"

-- The user has no link to the project, or the one found has neither permission.
pub IsNoWriter : User → ℕ → List UserProject → Type 0
IsNoWriter user project_id links =
    (select (is_link user project_id) links ≡ [])
    ⊎ ((l : UserProject) × (select (is_link user project_id) links ≡ l ∷ [])
        × (writes l.permission ≡ false))

write_cases :
    (found : List UserProject)
    → length found ≤ 1
    → ((l : UserProject) × (found ≡ l ∷ [])
        × (writes l.permission ≡ true)
        × (then_result (scalar_one_or_none found) may_write ≡ ok tt))
      ⊎ (((found ≡ []) ⊎ ((l : UserProject) × (found ≡ l ∷ []) × (writes l.permission ≡ false)))
          × (then_result (scalar_one_or_none found) may_write ≡ err (forbidden "需要子项写权限")))
write_cases [] h = inr (inl refl, refl)
write_cases (l ∷ []) h = elim (Bool-cases (writes l.permission)) [
  | inl e ↦ inl (l, refl, e, rw e refl)
  | inr e ↦ inr (inr (l, refl, e), rw e refl)
]
write_cases (l ∷ m ∷ found) h = absurd (omega arith)

-- When a user has at most one link to a project, one of two cases holds. Either the user is an
-- administrator or has a link with the permission to write or to administer, and the guard of writes lets the
-- user pass. Or the user is no administrator and has no link to the project or one with another permission,
-- and the guard refuses with FORBIDDEN.
pub check_project_write_access-decides :
    (user : User) (project_id : ℕ) (links : List UserProject)
    → count (is_link user project_id) links ≤ 1
    → (((str_eq user.role "admin" ≡ true) ⊎ HasLink user project_id writes links)
        × (check_project_write_access user project_id links ≡ ok tt))
      ⊎ ((str_eq user.role "admin" ≡ false)
          × IsNoWriter user project_id links
          × (check_project_write_access user project_id links ≡ err (forbidden "需要子项写权限")))
unfolding check_project_write_access HasLink IsNoWriter
check_project_write_access-decides user project_id links one =
    elim (Bool-cases (str_eq user.role "admin")) [
      | inl a ↦ inl (inl a, rw a refl)
      | inr a ↦
          elim (write_cases (select (is_link user project_id) links)
            (omega (arith, one, length-select (is_link user project_id) links))) [
              | inl (l, e, w, passes) ↦ inl (inr (l, e, w), rw a passes)
              | inr (lacks, refused) ↦ inr (a, lacks, rw a refused)
            ]
    ]
