-- ===== src/Inventory/Calls/Sensors.antt =====
-- The calls of `SensorService` keep the inventory sound.
use zhiwei_backend.Prelude.{
  Done, ℕ, ◌≡◌, refl, sym, ap, ◌∙◌, true, ◌&&◌, some, String, str_eq, eq_iff, arith, subst, inl,
  inr, Option-cases, ◌==◌, Result, scalar_one_or_none,
}
use zhiwei_backend.Prelude.Rows.{select, count, get, put, delete}
use zhiwei_backend.Prelude.Rows.Laws.{get-id, result-cases, found-cases, none-count}
use zhiwei_backend.Prelude.Rows.Tables.{
  insert, discard, child_of, IsKeyed-insert, IsKeyed-put, IsKeyed-delete, IsKeyed-discard,
  NoOrphans-parent_insert, NoOrphans-parent_put, NoOrphans-child_insert, NoOrphans-fewer,
  NoOrphans-cascade, Unique-insert, Unique-put, Unique-delete, Unique-discard, count-put_same,
  count-delete_le,
}
use zhiwei_backend.Inventory.Records.{
  Device, Sensor, Inventory, device_key, sensor_key, channel_key, sensor_device, channel_sensor,
  has_sensor_code, has_channel_code,
}
use zhiwei_backend.Inventory.Payloads.{SensorCreate, SensorUpdate, set_required}
use zhiwei_backend.Inventory.Invariant.{IsSound, Kept, Kept-refused, IsSound-sensors}
use zhiwei_backend.Inventory.Sensors.{create, update, delete_sensor, new_sensor, changed, clear_all}

module _ {Json : Type 0} where
  own_key :
      (i : ℕ) (x : Sensor Json) (s : Inventory Json)
      → get sensor_key i s.sensors.rows ≡ some x
      → get sensor_key x.id s.sensors.rows ≡ some x
  own_key i x s e =
      subst (λ (k : ℕ). get sensor_key k s.sensors.rows ≡ some x)
        (sym (get-id sensor_key i s.sensors.rows x e)) e

  has_sensor_code-own :
      (x : Sensor Json) (j : ℕ × String)
      → has_sensor_code j x ≡ true
      → j ≡ (x.device_id, x.sensor_code)
  has_sensor_code-own x (device, code) h =
      let d : x.device_id ≡ device = ground arith in
      let c : x.sensor_code ≡ code = (eq_iff x.sensor_code code).0 (ground arith) in cc

  -- A new sensor of a device that is there, with a code that no other of the device has.
  inserted :
      (x : Sensor Json) (d : Device Json) (s : Inventory Json)
      → IsSound s
      → x.id ≡ s.sensors.next_id
      → get device_key x.device_id s.devices.rows ≡ some d
      → count (has_sensor_code (x.device_id, x.sensor_code)) s.sensors.rows ≡ 0
      → IsSound (record s { sensors = insert x s.sensors })
  inserted x d s h e found free =
      IsSound-sensors s (insert x s.sensors) s.channels h
        (IsKeyed-insert sensor_key x s.sensors h.sensors e) h.channels
        (NoOrphans-child_insert device_key sensor_device x d s.devices.rows s.sensors.rows found
          h.sensor_parents)
        (NoOrphans-parent_insert sensor_key channel_sensor x s.sensors.rows s.channels.rows
          h.channel_parents)
        (Unique-insert sensor_key has_sensor_code (x.device_id, x.sensor_code) x s.sensors.rows free
          (λ j same. has_sensor_code-own x j same) h.sensor_codes)
        h.channel_codes

  replaced :
      (x b : Sensor Json) (s : Inventory Json)
      → IsSound s
      → get sensor_key x.id s.sensors.rows ≡ some b
      → x.device_id ≡ b.device_id
      → x.sensor_code ≡ b.sensor_code
      → IsSound (record s { sensors = record s.sensors { rows = put sensor_key x s.sensors.rows } })
  replaced x b s h found device code =
      let rows = put sensor_key x s.sensors.rows in
      IsSound-sensors s (record s.sensors { rows = rows }) s.channels h
        (IsKeyed-put sensor_key x s.sensors h.sensors) h.channels
        (NoOrphans-fewer device_key sensor_device s.devices.rows s.sensors.rows rows
          (λ i. omega (
            arith,
            count-put_same sensor_key (child_of sensor_device i) x b s.sensors h.sensors found
                (ap (λ (k : ℕ). k == i) device),
          ))
          h.sensor_parents)
        (NoOrphans-parent_put sensor_key channel_sensor x b s.sensors.rows s.channels.rows found
          h.channel_parents)
        (Unique-put sensor_key has_sensor_code x b s.sensors h.sensors found
          (λ j.
            ap (λ (k : ℕ). (k == j.0) && str_eq x.sensor_code j.1) device
            ∙ ap (λ (c : String). (b.device_id == j.0) && str_eq c j.1) code)
          h.sensor_codes)
        h.channel_codes

  -- A sensor goes with its channels.
  removed :
      (i : ℕ) (s : Inventory Json)
      → IsSound s
      → IsSound (record s {
        sensors = record s.sensors { rows = delete sensor_key i s.sensors.rows };
        channels = record s.channels { rows = discard (child_of channel_sensor i) s.channels.rows };
      })
  removed i s h =
      let rows = delete sensor_key i s.sensors.rows in
      let channels = discard (child_of channel_sensor i) s.channels.rows in
      IsSound-sensors s (record s.sensors { rows = rows }) (record s.channels { rows = channels }) h
        (IsKeyed-delete sensor_key i s.sensors h.sensors)
        (IsKeyed-discard channel_key (child_of channel_sensor i) s.channels h.channels)
        (NoOrphans-fewer device_key sensor_device s.devices.rows s.sensors.rows rows
          (λ k. count-delete_le sensor_key (child_of sensor_device k) i s.sensors.rows)
          h.sensor_parents)
        (NoOrphans-cascade sensor_key channel_sensor i s.sensors.rows s.channels.rows
          h.channel_parents)
        (Unique-delete sensor_key has_sensor_code i s.sensors.rows h.sensor_codes)
        (Unique-discard channel_key has_channel_code (child_of channel_sensor i) s.channels.rows
          h.channel_codes)

  pub create-Kept :
      (payload : SensorCreate Json) (s : Inventory Json) → IsSound s → Kept s (create payload s)
  unfolding create
  create-Kept payload s h =
      let key : ℕ × String = (payload.device_id, payload.sensor_code) in
      elim (Option-cases (get device_key payload.device_id s.devices.rows)) [
        | inl e ↦ rw e (Kept-refused s _ h)
        | inr (d, e) ↦
            elim (found-cases (scalar_one_or_none (select (has_sensor_code key) s.sensors.rows))) [
              | inr (inl (x, f)) ↦ rw (e, f) (Kept-refused s _ h)
              | inr (inr (x, f)) ↦ rw (e, f) (Kept-refused s _ h)
              | inl f ↦
                  rw (e, f)
                    (record {
                      sound =
                          inserted (new_sensor payload s.sensors.next_id) d s h refl e
                            (none-count (has_sensor_code key) s.sensors.rows f);
                      unchanged = refl;
                    })
            ]
      ]

  pub update-Kept :
      (i : ℕ) (payload : SensorUpdate Json) (s : Inventory Json)
      → IsSound s
      → Kept s (update i payload s)
  unfolding update
  update-Kept i payload s h = elim (Option-cases (get sensor_key i s.sensors.rows)) [
    | inl e ↦ rw e (Kept-refused s _ h)
    | inr (x, e) ↦ elim (result-cases (set_required payload.is_active x.is_active)) [
      | inr (y, f) ↦ rw (e, f) (Kept-refused s _ h)
      | inl (is_active, f) ↦
          rw (e, f)
            (record {
              sound = replaced (changed payload is_active x) x s h (own_key i x s e) refl refl;
              unchanged = refl;
            })
    ]
  ]

  pub delete_sensor-Kept :
      (references : ℕ → Result Done) (i : ℕ) (s : Inventory Json)
      → IsSound s
      → Kept s (delete_sensor references i s)
  unfolding delete_sensor
  delete_sensor-Kept references i s h = elim (Option-cases (get sensor_key i s.sensors.rows)) [
    | inl e ↦ rw e (Kept-refused s _ h)
    | inr (x, e) ↦
        elim (result-cases
          (clear_all references (select (child_of channel_sensor x.id) s.channels.rows))) [
            | inr (y, f) ↦ rw (e, f) (Kept-refused s _ h)
            | inl (done, f) ↦ rw (e, f) (record { sound = removed x.id s h; unchanged = refl })
          ]
  ]
