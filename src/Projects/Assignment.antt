-- ===== src/Projects/Assignment.antt =====
-- What a member may do after an assignment.
use zhiwei_backend.Prelude.{
  Done, ℕ, ◌≤◌, ◌≡◌, refl, ap, ◌∙◌, false, ◌⊎◌, List, [], ◌∷◌, none, some, String, str_eq, arith,
  inl, inr, Option-cases, Bool-cases, ◌==◌, if◌then◌else◌, Result, ok, err, is_ok,
}
use zhiwei_backend.Prelude.Rows.{find, select, count, get}
use zhiwei_backend.Prelude.Rows.Laws.{count-append, select-append_none, none-select}
use zhiwei_backend.Users.Table.{User, user_id}
use zhiwei_backend.Access.Guards.{UserProject, forbidden, check_project_write_access}
use zhiwei_backend.Access.Hierarchy.{writes}
use zhiwei_backend.Projects.Members.{
  Membership, is_key, put_permission, new_link, set_link, assign_user,
}

-- A user has at most one link to a project.
abbrev pub IsUnique : List UserProject → Type 0
IsUnique links = (user project : ℕ) → count (is_key user project) links ≤ 1

find-count :
    (user project : ℕ) (links : List UserProject)
    → find (is_key user project) links ≡ none
    → count (is_key user project) links ≡ 0
find-count user project [] h = refl
find-count user project (l ∷ links) h = ground (arith, find-count user project links)

find-count-some :
    (user project : ℕ) (l : UserProject) (links : List UserProject)
    → find (is_key user project) links ≡ some l
    → 1 ≤ count (is_key user project) links
find-count-some user project l [] h = cc
find-count-some user project l (m ∷ links) h = ground (arith, find-count-some user project l links)

count-put_permission :
    (user project v q : ℕ) (permission : String) (links : List UserProject)
    → count (is_key v q) (put_permission user project permission links) ≡ count (is_key v q) links
count-put_permission user project v q permission [] = refl
count-put_permission user project v q permission (l ∷ links) =
    elim (Bool-cases (is_key user project l)) [
      | inl e ↦ rw e (ground (arith, count-put_permission user project v q permission links))
      | inr e ↦ rw e (ground (arith, count-put_permission user project v q permission links))
    ]

-- The one link of the key after the assignment.
pub Assigned : ℕ → ℕ → String → List UserProject → Type 0
Assigned user project permission links =
    (l : UserProject) × (select (is_key user project) links ≡ l ∷ []) × (l.permission ≡ permission)

put_permission-Assigned :
    (user project : ℕ) (permission : String) (links : List UserProject)
    → count (is_key user project) links ≡ 1
    → Assigned user project permission (put_permission user project permission links)
unfolding Assigned
put_permission-Assigned user project permission [] h = absurd (omega (arith, h))
put_permission-Assigned user project permission (l ∷ links) h =
    elim (Bool-cases (is_key user project l)) [
      | inl e ↦
          let rest : select (is_key user project) (put_permission user project permission links)
              ≡ [] =
            none-select (is_key user project) (put_permission user project permission links)
              (count-put_permission user project user project permission links ∙ ground arith) in
          (record l { permission = permission }, rw (e, e, rest) refl, refl)
      | inr e ↦ rw (e, e) (put_permission-Assigned user project permission links (ground arith))
    ]

set_link-Assigned :
    (user project : ℕ) (permission : String) (links : List UserProject)
    → IsUnique links
    → Assigned user project permission (set_link user project permission links)
      × IsUnique (set_link user project permission links)
unfolding set_link Assigned
set_link-Assigned user project permission links one =
    elim (Option-cases (find (is_key user project) links)) [
      | inl e ↦
          let free = find-count user project links e in
          rw e (
            (
              new_link user project permission,
              select-append_none (is_key user project) links (new_link user project permission) free
                  (ground arith),
              refl,
            ),
            λ v q. ground (
              arith,
              count-append (is_key v q) links (new_link user project permission),
              one v q,
              free,
              ap (λ (k : ℕ). count (is_key k q) links),
              ap (λ (k : ℕ). count (is_key user k) links),
            ),
          )
      | inr (l, e) ↦ rw e (
        put_permission-Assigned user project permission links
            (omega (arith, one user project, find-count-some user project l links e)),
        λ v q. omega (arith, one v q, count-put_permission user project v q permission links),
      )
    ]

write_of_Assigned :
    (u : User) (project : ℕ) (permission : String) (links : List UserProject)
    → str_eq u.role "admin" ≡ false
    → Assigned u.id project permission links
    → check_project_write_access u project links
      ≡ (if writes permission then ok tt else err (forbidden "需要子项写权限"))
unfolding check_project_write_access Assigned
write_of_Assigned u project permission links role (l, e, p) =
    rw (role, e) (ap (λ (x : String). if writes x then ok tt else err (forbidden "需要子项写权限")) p)

-- An assignment of a member who is no administrator is refused, and nothing is changed, or it returns;
-- then a user still has at most one link to a project, and the guard of writes lets the member pass
-- exactly if the permission assigned last is to write or to administer.
pub AssignsUser : ℕ → User → String → Membership → Result Done × Membership → Type 0
AssignsUser project u permission s out =
    ((is_ok out.0 ≡ false) × (out.1 ≡ s))
    ⊎ ((out.0 ≡ ok tt)
        × IsUnique out.1.links
        × (check_project_write_access u project out.1.links
            ≡ (if writes permission then ok tt else err (forbidden "需要子项写权限"))))

-- Where a user has at most one link to a project, an assignment of a member who is no administrator
-- raises and changes nothing, or it returns; then a user still has at most one link to a project, and
-- the guard of writes lets the member pass exactly if the permission assigned is to write or to
-- administer.
pub assign_user-AssignsUser :
    (project : ℕ) (u : User) (permission : String) (s : Membership)
    → IsUnique s.links
    → str_eq u.role "admin" ≡ false
    → AssignsUser project u permission s (assign_user project u.id permission s)
unfolding assign_user AssignsUser
assign_user-AssignsUser project u permission s one role =
    elim (Option-cases (find (λ k. k == project) s.projects)) [
      | inl e ↦ inl (rw e (refl, refl))
      | inr (i, e) ↦ elim (Option-cases (get user_id u.id s.users.rows)) [
        | inl f ↦ inl (rw (e, f) (refl, refl))
        | inr (v, f) ↦
            let (assigned, unique) = set_link-Assigned u.id project permission s.links one in
            inr (
              rw (e, f)
                (
                  refl,
                  unique,
                  write_of_Assigned u project permission (set_link u.id project permission s.links)
                      role assigned,
                ))
      ]
    ]
