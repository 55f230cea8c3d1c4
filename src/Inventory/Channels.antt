-- ===== src/Inventory/Channels.antt =====
-- `ChannelService` of app/services/channel_service.py.
use zhiwei_backend.Prelude.{
  Done, ℕ, Bool, true, false, List, [], ◌∷◌, Option, none, some, String, ◌==◌, Action, Result, ok,
  biz_exception, pure, lift, modify, some_or, scalar_one_or_none, ◌>>=◌, ◌>>◌,
}
use zhiwei_backend.Prelude.Rows.{select, count, get, put, delete}
use zhiwei_backend.Prelude.Rows.Pages.{order_by, page_of}
use zhiwei_backend.Prelude.Rows.Tables.{insert, child_of}
use zhiwei_backend.Inventory.Records.{
  Sensor, Channel, Inventory, sensor_key, channel_key, channel_sensor, has_channel_code,
}
use zhiwei_backend.Inventory.Payloads.{ChannelCreate, ChannelUpdate, set_nullable, set_required}
use zhiwei_backend.Inventory.Devices.{refuse_existing}
use zhiwei_backend.Inventory.Sensors.{get_sensor}

-- `[r.model_dump() for r in payload.alert_rules] if payload.alert_rules else None`
abbrev pub dump_rules : {Json : Type 0} → Option (List Json) → Option (List Json)
dump_rules none = none
dump_rules (some []) = none
dump_rules (some (r ∷ rules)) = some (r ∷ rules)

module _ {Json : Type 0} where
  abbrev pub get_channel : ℕ → Action (Inventory Json) (Channel Json)
  get_channel i s =
      some_or (get channel_key i s.channels.rows) (biz_exception "CHANNEL_NOT_FOUND" "通道不存在" 404) s

  abbrev pub page_where : (Channel Json → Bool) → ℕ → ℕ → Inventory Json → List (Channel Json) × ℕ
  page_where test page size s = (
    page_of page size (order_by channel_key (select test s.channels.rows)),
    count test s.channels.rows,
  )

  unfoldable pub list_by_sensor : ℕ → ℕ → ℕ → Inventory Json → List (Channel Json) × ℕ
  list_by_sensor sensor page size s = page_where (child_of channel_sensor sensor) page size s

  abbrev pub is_of : Option (Sensor Json) → ℕ → Bool
  is_of none device = false
  is_of (some x) device = x.device_id == device

  -- the rows that the join with the sensors keeps
  abbrev pub on_device : ℕ → Inventory Json → Channel Json → Bool
  on_device device s c = is_of (get sensor_key c.sensor_id s.sensors.rows) device

  unfoldable pub list_by_device : ℕ → ℕ → ℕ → Inventory Json → List (Channel Json) × ℕ
  list_by_device device page size s = page_where (on_device device s) page size s

  abbrev pub new_channel : ChannelCreate Json → ℕ → Channel Json
  new_channel payload i = record {
    id = i;
    sensor_id = payload.sensor_id;
    channel_code = payload.channel_code;
    channel_type = payload.channel_type;
    unit = payload.unit;
    sampling_rate = payload.sampling_rate;
    position_offset = payload.position_offset;
    axis = payload.axis;
    alert_rules = dump_rules payload.alert_rules;
    is_active = true;
    note = payload.note;
  }

  abbrev pub existing_channel : ℕ → String → Action (Inventory Json) (Option (Channel Json))
  existing_channel sensor code s =
      (scalar_one_or_none (select (has_channel_code (sensor, code)) s.channels.rows), s)

  abbrev pub insert_channel : ChannelCreate Json → Action (Inventory Json) (Channel Json)
  insert_channel payload s =
      let c = new_channel payload s.channels.next_id in
      (ok c, record s { channels = insert c s.channels })

  unfoldable pub create : ChannelCreate Json → Action (Inventory Json) (Channel Json)
  create payload = do
    get_sensor payload.sensor_id
    existing ← existing_channel payload.sensor_id payload.channel_code
    refuse_existing existing (biz_exception "CHANNEL_CODE_EXISTS" "通道编码已存在" 409)
    insert_channel payload

  abbrev pub changed : ChannelUpdate Json → ℕ → Bool → Channel Json → Channel Json
  changed payload sampling_rate is_active c = record c {
    channel_type = set_nullable payload.channel_type c.channel_type;
    unit = set_nullable payload.unit c.unit;
    sampling_rate = sampling_rate;
    position_offset = set_nullable payload.position_offset c.position_offset;
    axis = set_nullable payload.axis c.axis;
    alert_rules = set_nullable payload.alert_rules c.alert_rules;
    is_active = is_active;
    note = set_nullable payload.note c.note;
  }

  abbrev pub flush : Channel Json → Action (Inventory Json) Done
  flush c =
      modify (λ s. record s {
        channels = record s.channels { rows = put channel_key c s.channels.rows };
      })

  unfoldable pub update : ℕ → ChannelUpdate Json → Action (Inventory Json) (Channel Json)
  update i payload = do
    c ← get_channel i
    sampling_rate ← lift (set_required payload.sampling_rate c.sampling_rate)
    is_active ← lift (set_required payload.is_active c.is_active)
    flush (changed payload sampling_rate is_active c)
    pure (changed payload sampling_rate is_active c)

  unfoldable pub delete_channel : (ℕ → Result Done) → ℕ → Action (Inventory Json) Done
  delete_channel references i = do
    c ← get_channel i
    lift (references c.id)
    modify (λ s. record s {
      channels = record s.channels { rows = delete channel_key c.id s.channels.rows };
    })
