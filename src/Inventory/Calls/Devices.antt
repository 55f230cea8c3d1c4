-- ===== src/Inventory/Calls/Devices.antt =====
-- The calls of `DeviceService` keep the inventory sound.
use zhiwei_backend.Prelude.{
  ℕ, ◌≡◌, refl, sym, ap, ltb, List, some, String, str_eq, eq_iff, arith, subst, inl, inr,
  Option-cases, Bool-cases, ◌==◌, scalar_one_or_none,
}
use zhiwei_backend.Prelude.Rows.{select, count, get, put, delete}
use zhiwei_backend.Prelude.Rows.Laws.{get-id, result-cases, found-cases, none-count}
use zhiwei_backend.Prelude.Rows.Tables.{
  insert, child_of, IsKeyed-insert, IsKeyed-put, IsKeyed-delete, NoOrphans-parent_insert,
  NoOrphans-parent_put, NoOrphans-parent_delete, NoOrphans-child_insert, NoOrphans-fewer,
  Unique-insert, Unique-put, Unique-delete, count-put_same, count-delete_le,
}
use zhiwei_backend.Inventory.Records.{
  Project, Device, Inventory, project_key, device_key, device_project, sensor_device,
  has_device_code,
}
use zhiwei_backend.Inventory.Payloads.{DeviceCreate, DeviceUpdate, set_required}
use zhiwei_backend.Inventory.Invariant.{IsSound, Kept, Kept-refused, IsSound-devices}
use zhiwei_backend.Inventory.Devices.{
  create, update, delete_device, new_device, changed, is_registered, is_unknown,
}

module _ {Json : Type 0} where
  own_key :
      (i : ℕ) (d : Device Json) (s : Inventory Json)
      → get device_key i s.devices.rows ≡ some d
      → get device_key d.id s.devices.rows ≡ some d
  own_key i d s e =
      subst (λ (k : ℕ). get device_key k s.devices.rows ≡ some d)
        (sym (get-id device_key i s.devices.rows d e)) e

  -- A new device of a project that is there, with a code of its own.
  inserted :
      (d : Device Json) (p : Project Json) (s : Inventory Json)
      → IsSound s
      → d.id ≡ s.devices.next_id
      → get project_key d.project_id s.projects.rows ≡ some p
      → count (has_device_code d.device_code) s.devices.rows ≡ 0
      → IsSound (record s { devices = insert d s.devices })
  inserted d p s h e found free =
      IsSound-devices s (insert d s.devices) h (IsKeyed-insert device_key d s.devices h.devices e)
        (NoOrphans-child_insert project_key device_project d p s.projects.rows s.devices.rows found
          h.device_parents)
        (NoOrphans-parent_insert device_key sensor_device d s.devices.rows s.sensors.rows
          h.sensor_parents)
        (Unique-insert device_key has_device_code d.device_code d s.devices.rows free
          (λ j same. sym ((eq_iff d.device_code j).0 same)) h.device_codes)

  -- A device that keeps its project and its code.
  replaced :
      (d b : Device Json) (s : Inventory Json)
      → IsSound s
      → get device_key d.id s.devices.rows ≡ some b
      → d.project_id ≡ b.project_id
      → d.device_code ≡ b.device_code
      → IsSound (record s { devices = record s.devices { rows = put device_key d s.devices.rows } })
  replaced d b s h found project code =
      let rows = put device_key d s.devices.rows in
      IsSound-devices s (record s.devices { rows = rows }) h
        (IsKeyed-put device_key d s.devices h.devices)
        (NoOrphans-fewer project_key device_project s.projects.rows s.devices.rows rows
          (λ i. omega (
            arith,
            count-put_same device_key (child_of device_project i) d b s.devices h.devices found
                (ap (λ (k : ℕ). k == i) project),
          ))
          h.device_parents)
        (NoOrphans-parent_put device_key sensor_device d b s.devices.rows s.sensors.rows found
          h.sensor_parents)
        (Unique-put device_key has_device_code d b s.devices h.devices found
          (λ j. ap (λ (c : String). str_eq c j) code) h.device_codes)

  -- A device without sensors goes.
  removed :
      (i : ℕ) (s : Inventory Json)
      → IsSound s
      → count (child_of sensor_device i) s.sensors.rows ≡ 0
      → IsSound
          (record s { devices = record s.devices { rows = delete device_key i s.devices.rows } })
  removed i s h free =
      let rows = delete device_key i s.devices.rows in
      IsSound-devices s (record s.devices { rows = rows }) h
        (IsKeyed-delete device_key i s.devices h.devices)
        (NoOrphans-fewer project_key device_project s.projects.rows s.devices.rows rows
          (λ k. count-delete_le device_key (child_of device_project k) i s.devices.rows)
          h.device_parents)
        (NoOrphans-parent_delete device_key sensor_device i s.devices.rows s.sensors.rows free
          h.sensor_parents)
        (Unique-delete device_key has_device_code i s.devices.rows h.device_codes)

  pub create-Kept :
      (protocols : List String) (payload : DeviceCreate Json) (s : Inventory Json)
      → IsSound s
      → Kept s (create protocols payload s)
  unfolding create
  create-Kept protocols payload s h =
      elim (Option-cases (get project_key payload.project_id s.projects.rows)) [
        | inl e ↦ rw e (Kept-refused s _ h)
        | inr (p, e) ↦ elim (Bool-cases (is_registered payload.protocol protocols)) [
          | inr g ↦ rw (e, g) (Kept-refused s _ h)
          | inl g ↦
              elim (found-cases (
                scalar_one_or_none (select (has_device_code payload.device_code) s.devices.rows))) [
                  | inr (inl (d, f)) ↦ rw (e, g, f) (Kept-refused s _ h)
                  | inr (inr (x, f)) ↦ rw (e, g, f) (Kept-refused s _ h)
                  | inl f ↦
                      rw (e, g, f)
                        (record {
                          sound =
                              inserted (new_device payload s.devices.next_id) p s h refl e
                                (none-count (has_device_code payload.device_code) s.devices.rows f);
                          unchanged = refl;
                        })
                ]
        ]
      ]

  pub update-Kept :
      (protocols : List String) (i : ℕ) (payload : DeviceUpdate Json) (s : Inventory Json)
      → IsSound s
      → Kept s (update protocols i payload s)
  unfolding update
  update-Kept protocols i payload s h = elim (Option-cases (get device_key i s.devices.rows)) [
    | inl e ↦ rw e (Kept-refused s _ h)
    | inr (d, e) ↦ elim (Bool-cases (is_unknown payload.protocol protocols)) [
      | inl u ↦ rw (e, u) (Kept-refused s _ h)
      | inr u ↦ elim (result-cases (set_required payload.protocol d.protocol)) [
        | inr (x, f) ↦ rw (e, u, f) (Kept-refused s _ h)
        | inl (protocol, f) ↦ elim (result-cases (set_required payload.status d.status)) [
          | inr (x, k) ↦ rw (e, u, f, k) (Kept-refused s _ h)
          | inl (status, k) ↦
              rw (e, u, f, k)
                (record {
                  sound =
                      replaced (changed payload protocol status d) d s h (own_key i d s e) refl
                        refl;
                  unchanged = refl;
                })
        ]
      ]
    ]
  ]

  pub delete_device-Kept : (i : ℕ) (s : Inventory Json) → IsSound s → Kept s (delete_device i s)
  unfolding delete_device
  delete_device-Kept i s h = elim (Option-cases (get device_key i s.devices.rows)) [
    | inl e ↦ rw e (Kept-refused s _ h)
    | inr (d, e) ↦ elim (Bool-cases (ltb 0 (count (child_of sensor_device d.id) s.sensors.rows))) [
      | inl c ↦ rw (e, c) (Kept-refused s _ h)
      | inr c ↦ rw (e, c) (record { sound = removed d.id s h (ground arith); unchanged = refl })
    ]
  ]
