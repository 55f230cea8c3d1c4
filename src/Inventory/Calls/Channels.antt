-- ===== src/Inventory/Calls/Channels.antt =====
-- The calls of `ChannelService` keep the inventory sound.
use zhiwei_backend.Prelude.{
  Done, ℕ, ◌≡◌, refl, sym, ap, ◌∙◌, true, ◌&&◌, some, String, str_eq, eq_iff, arith, subst, inl,
  inr, Option-cases, ◌==◌, Result, scalar_one_or_none,
}
use zhiwei_backend.Prelude.Rows.{select, count, get, put, delete}
use zhiwei_backend.Prelude.Rows.Laws.{get-id, result-cases, found-cases, none-count}
use zhiwei_backend.Prelude.Rows.Tables.{
  insert, child_of, IsKeyed-insert, IsKeyed-put, IsKeyed-delete, NoOrphans-child_insert,
  NoOrphans-fewer, Unique-insert, Unique-put, Unique-delete, count-put_same, count-delete_le,
}
use zhiwei_backend.Inventory.Records.{
  Sensor, Channel, Inventory, sensor_key, channel_key, channel_sensor, has_channel_code,
}
use zhiwei_backend.Inventory.Payloads.{ChannelCreate, ChannelUpdate, set_required}
use zhiwei_backend.Inventory.Invariant.{IsSound, Kept, Kept-refused, IsSound-sensors}
use zhiwei_backend.Inventory.Channels.{create, update, delete_channel, new_channel, changed}

module _ {Json : Type 0} where
  own_key :
      (i : ℕ) (c : Channel Json) (s : Inventory Json)
      → get channel_key i s.channels.rows ≡ some c
      → get channel_key c.id s.channels.rows ≡ some c
  own_key i c s e =
      subst (λ (k : ℕ). get channel_key k s.channels.rows ≡ some c)
        (sym (get-id channel_key i s.channels.rows c e)) e

  has_channel_code-own :
      (c : Channel Json) (j : ℕ × String)
      → has_channel_code j c ≡ true
      → j ≡ (c.sensor_id, c.channel_code)
  has_channel_code-own c (sensor, code) h =
      let d : c.sensor_id ≡ sensor = ground arith in
      let e : c.channel_code ≡ code = (eq_iff c.channel_code code).0 (ground arith) in cc

  -- A new channel of a sensor that is there, with a code that no other of the sensor has.
  inserted :
      (c : Channel Json) (x : Sensor Json) (s : Inventory Json)
      → IsSound s
      → c.id ≡ s.channels.next_id
      → get sensor_key c.sensor_id s.sensors.rows ≡ some x
      → count (has_channel_code (c.sensor_id, c.channel_code)) s.channels.rows ≡ 0
      → IsSound (record s { channels = insert c s.channels })
  inserted c x s h e found free =
      IsSound-sensors s s.sensors (insert c s.channels) h h.sensors
        (IsKeyed-insert channel_key c s.channels h.channels e) h.sensor_parents
        (NoOrphans-child_insert sensor_key channel_sensor c x s.sensors.rows s.channels.rows found
          h.channel_parents)
        h.sensor_codes
        (Unique-insert channel_key has_channel_code (c.sensor_id, c.channel_code) c s.channels.rows
          free (λ j same. has_channel_code-own c j same) h.channel_codes)

  replaced :
      (c b : Channel Json) (s : Inventory Json)
      → IsSound s
      → get channel_key c.id s.channels.rows ≡ some b
      → c.sensor_id ≡ b.sensor_id
      → c.channel_code ≡ b.channel_code
      → IsSound
          (record s { channels = record s.channels { rows = put channel_key c s.channels.rows } })
  replaced c b s h found sensor code =
      let rows = put channel_key c s.channels.rows in
      IsSound-sensors s s.sensors (record s.channels { rows = rows }) h h.sensors
        (IsKeyed-put channel_key c s.channels h.channels) h.sensor_parents
        (NoOrphans-fewer sensor_key channel_sensor s.sensors.rows s.channels.rows rows
          (λ i. omega (
            arith,
            count-put_same channel_key (child_of channel_sensor i) c b s.channels h.channels found
                (ap (λ (k : ℕ). k == i) sensor),
          ))
          h.channel_parents)
        h.sensor_codes
        (Unique-put channel_key has_channel_code c b s.channels h.channels found
          (λ j.
            ap (λ (k : ℕ). (k == j.0) && str_eq c.channel_code j.1) sensor
            ∙ ap (λ (x : String). (b.sensor_id == j.0) && str_eq x j.1) code)
          h.channel_codes)

  removed :
      (i : ℕ) (s : Inventory Json)
      → IsSound s
      → IsSound (record s {
        channels = record s.channels { rows = delete channel_key i s.channels.rows };
      })
  removed i s h =
      let rows = delete channel_key i s.channels.rows in
      IsSound-sensors s s.sensors (record s.channels { rows = rows }) h h.sensors
        (IsKeyed-delete channel_key i s.channels h.channels) h.sensor_parents
        (NoOrphans-fewer sensor_key channel_sensor s.sensors.rows s.channels.rows rows
          (λ k. count-delete_le channel_key (child_of channel_sensor k) i s.channels.rows)
          h.channel_parents)
        h.sensor_codes
        (Unique-delete channel_key has_channel_code i s.channels.rows h.channel_codes)

  pub create-Kept :
      (payload : ChannelCreate Json) (s : Inventory Json) → IsSound s → Kept s (create payload s)
  unfolding create
  create-Kept payload s h =
      let key : ℕ × String = (payload.sensor_id, payload.channel_code) in
      elim (Option-cases (get sensor_key payload.sensor_id s.sensors.rows)) [
        | inl e ↦ rw e (Kept-refused s _ h)
        | inr (x, e) ↦
            elim (found-cases
              (scalar_one_or_none (select (has_channel_code key) s.channels.rows))) [
                | inr (inl (c, f)) ↦ rw (e, f) (Kept-refused s _ h)
                | inr (inr (y, f)) ↦ rw (e, f) (Kept-refused s _ h)
                | inl f ↦
                    rw (e, f)
                      (record {
                        sound =
                            inserted (new_channel payload s.channels.next_id) x s h refl e
                              (none-count (has_channel_code key) s.channels.rows f);
                        unchanged = refl;
                      })
              ]
      ]

  pub update-Kept :
      (i : ℕ) (payload : ChannelUpdate Json) (s : Inventory Json)
      → IsSound s
      → Kept s (update i payload s)
  unfolding update
  update-Kept i payload s h = elim (Option-cases (get channel_key i s.channels.rows)) [
    | inl e ↦ rw e (Kept-refused s _ h)
    | inr (c, e) ↦ elim (result-cases (set_required payload.sampling_rate c.sampling_rate)) [
      | inr (y, f) ↦ rw (e, f) (Kept-refused s _ h)
      | inl (rate, f) ↦ elim (result-cases (set_required payload.is_active c.is_active)) [
        | inr (y, g) ↦ rw (e, f, g) (Kept-refused s _ h)
        | inl (is_active, g) ↦
            rw (e, f, g)
              (record {
                sound =
                    replaced (changed payload rate is_active c) c s h (own_key i c s e) refl refl;
                unchanged = refl;
              })
      ]
    ]
  ]

  pub delete_channel-Kept :
      (references : ℕ → Result Done) (i : ℕ) (s : Inventory Json)
      → IsSound s
      → Kept s (delete_channel references i s)
  unfolding delete_channel
  delete_channel-Kept references i s h = elim (Option-cases (get channel_key i s.channels.rows)) [
    | inl e ↦ rw e (Kept-refused s _ h)
    | inr (c, e) ↦ elim (result-cases (references c.id)) [
      | inr (y, f) ↦ rw (e, f) (Kept-refused s _ h)
      | inl (done, f) ↦ rw (e, f) (record { sound = removed c.id s h; unchanged = refl })
    ]
  ]
