-- ===== src/Inventory/Calls/Projects.antt =====
-- The calls of `ProjectService` keep the inventory sound.
use zhiwei_backend.Prelude.{
  Done, ℕ, ◌≡◌, refl, sym, ltb, some, arith, subst, inl, inr, Option-cases, Bool-cases, Result,
}
use zhiwei_backend.Prelude.Rows.{count, get, put, delete}
use zhiwei_backend.Prelude.Rows.Laws.{get-id, result-cases}
use zhiwei_backend.Prelude.Rows.Tables.{
  IsKeyed-insert, IsKeyed-put, IsKeyed-delete, NoOrphans-parent_insert, NoOrphans-parent_put,
  NoOrphans-parent_delete, child_of, insert, discard,
}
use zhiwei_backend.Users.Table.{User}
use zhiwei_backend.Inventory.Records.{Project, Inventory, project_key, device_project}
use zhiwei_backend.Inventory.Payloads.{ProjectCreate, ProjectUpdate, set_required}
use zhiwei_backend.Inventory.Projects.{
  create_project, update_project, delete_project, new_project, renamed, is_link_of,
}
use zhiwei_backend.Inventory.Invariant.{IsSound, Kept, Kept-refused, IsSound-projects}

module _ {Json : Type 0} where
  pub create_project-Kept :
      (payload : ProjectCreate Json) (creator : User) (s : Inventory Json)
      → IsSound s
      → Kept s (create_project payload creator s)
  unfolding create_project
  create_project-Kept payload creator s h =
      let p = new_project payload creator.id s.projects.next_id in
      record {
        sound =
            IsSound-projects s (insert p s.projects) s.links h
              (IsKeyed-insert project_key p s.projects h.projects refl)
              (NoOrphans-parent_insert project_key device_project p s.projects.rows s.devices.rows
                h.device_parents);
        unchanged = refl;
      }

  own_key :
      (i : ℕ) (p : Project Json) (s : Inventory Json)
      → get project_key i s.projects.rows ≡ some p
      → get project_key p.id s.projects.rows ≡ some p
  own_key i p s e =
      subst (λ (k : ℕ). get project_key k s.projects.rows ≡ some p)
        (sym (get-id project_key i s.projects.rows p e)) e

  pub update_project-Kept :
      (i : ℕ) (payload : ProjectUpdate Json) (s : Inventory Json)
      → IsSound s
      → Kept s (update_project i payload s)
  unfolding update_project
  update_project-Kept i payload s h = elim (Option-cases (get project_key i s.projects.rows)) [
    | inl e ↦ rw e (Kept-refused s _ h)
    | inr (p, e) ↦ elim (result-cases (set_required payload.name p.name)) [
      | inr (x, f) ↦ rw (e, f) (Kept-refused s _ h)
      | inl (name, f) ↦
          let q = renamed payload name p in
          rw (e, f)
            (record {
              sound =
                  IsSound-projects s
                    (record s.projects { rows = put project_key q s.projects.rows }) s.links h
                    (IsKeyed-put project_key q s.projects h.projects)
                    (NoOrphans-parent_put project_key device_project q p s.projects.rows
                      s.devices.rows (own_key i p s e) h.device_parents);
              unchanged = refl;
            })
    ]
  ]

  pub delete_project-Kept :
      (references : ℕ → Result Done) (i : ℕ) (s : Inventory Json)
      → IsSound s
      → Kept s (delete_project references i s)
  unfolding delete_project
  delete_project-Kept references i s h = elim (Option-cases (get project_key i s.projects.rows)) [
    | inl e ↦ rw e (Kept-refused s _ h)
    | inr (p, e) ↦ elim (Bool-cases (ltb 0 (count (child_of device_project p.id) s.devices.rows))) [
      | inl d ↦ rw (e, d) (Kept-refused s _ h)
      | inr d ↦ elim (result-cases (references p.id)) [
        | inr (x, f) ↦ rw (e, d, f) (Kept-refused s _ h)
        | inl (done, f) ↦
            rw (e, d, f)
              (record {
                sound =
                    IsSound-projects s
                      (record s.projects { rows = delete project_key p.id s.projects.rows })
                      (discard (is_link_of p.id) s.links) h
                      (IsKeyed-delete project_key p.id s.projects h.projects)
                      (NoOrphans-parent_delete project_key device_project p.id s.projects.rows
                        s.devices.rows (ground arith) h.device_parents);
                unchanged = refl;
              })
      ]
    ]
  ]
