-- ===== src/Inventory/Sensors.antt =====
-- `SensorService` of app/services/sensor_service.py. The answer of the database and the ORM to the
-- deletion of a channel that other tables refer to (readings, alerts and jobs) is an argument.
use zhiwei_backend.Prelude.{
  Done, ℕ, Bool, true, List, [], ◌∷◌, Option, String, Action, Result, ok, then_result,
  biz_exception, pure, lift, gets, modify, some_or, scalar_one_or_none, ◌>>=◌, ◌>>◌,
}
use zhiwei_backend.Prelude.Rows.{select, count, get, put, delete}
use zhiwei_backend.Prelude.Rows.Pages.{order_by, page_of}
use zhiwei_backend.Prelude.Rows.Tables.{insert, discard, child_of}
use zhiwei_backend.Inventory.Records.{
  Sensor, Channel, Inventory, sensor_key, sensor_device, channel_sensor, has_sensor_code,
}
use zhiwei_backend.Inventory.Payloads.{SensorCreate, SensorUpdate, set_nullable, set_required}
use zhiwei_backend.Inventory.Devices.{refuse_existing, get_device}

-- The first refusal among the channels that a deletion takes along.
abbrev pub clear_all : {Json : Type 0} → (ℕ → Result Done) → List (Channel Json) → Result Done
clear_all references [] = ok tt
clear_all references (c ∷ channels) =
    then_result (references c.id) (λ _. clear_all references channels)

module _ {Json : Type 0} where
  abbrev pub get_sensor : ℕ → Action (Inventory Json) (Sensor Json)
  get_sensor i s =
      some_or (get sensor_key i s.sensors.rows) (biz_exception "SENSOR_NOT_FOUND" "传感器不存在" 404) s

  unfoldable pub list_by_device : ℕ → ℕ → ℕ → Inventory Json → List (Sensor Json) × ℕ
  list_by_device device page size s = (
    page_of page size (order_by sensor_key (select (child_of sensor_device device) s.sensors.rows)),
    count (child_of sensor_device device) s.sensors.rows,
  )

  abbrev pub new_sensor : SensorCreate Json → ℕ → Sensor Json
  new_sensor payload i = record {
    id = i;
    device_id = payload.device_id;
    sensor_code = payload.sensor_code;
    sensor_name = payload.sensor_name;
    sensor_type = payload.sensor_type;
    model = payload.model;
    manufacturer = payload.manufacturer;
    install_date = payload.install_date;
    last_calibration = payload.last_calibration;
    position = payload.position;
    is_active = true;
    note = payload.note;
    metadata = payload.metadata;
  }

  abbrev pub existing_sensor : ℕ → String → Action (Inventory Json) (Option (Sensor Json))
  existing_sensor device code s =
      (scalar_one_or_none (select (has_sensor_code (device, code)) s.sensors.rows), s)

  abbrev pub insert_sensor : SensorCreate Json → Action (Inventory Json) (Sensor Json)
  insert_sensor payload s =
      let x = new_sensor payload s.sensors.next_id in
      (ok x, record s { sensors = insert x s.sensors })

  unfoldable pub create : SensorCreate Json → Action (Inventory Json) (Sensor Json)
  create payload = do
    get_device payload.device_id
    existing ← existing_sensor payload.device_id payload.sensor_code
    refuse_existing existing (biz_exception "SENSOR_CODE_EXISTS" "传感器编码已存在" 409)
    insert_sensor payload

  abbrev pub changed : SensorUpdate Json → Bool → Sensor Json → Sensor Json
  changed payload is_active x = record x {
    sensor_name = set_nullable payload.sensor_name x.sensor_name;
    sensor_type = set_nullable payload.sensor_type x.sensor_type;
    model = set_nullable payload.model x.model;
    manufacturer = set_nullable payload.manufacturer x.manufacturer;
    install_date = set_nullable payload.install_date x.install_date;
    last_calibration = set_nullable payload.last_calibration x.last_calibration;
    position = set_nullable payload.position x.position;
    is_active = is_active;
    metadata = set_nullable payload.metadata x.metadata;
    note = set_nullable payload.note x.note;
  }

  abbrev pub flush : Sensor Json → Action (Inventory Json) Done
  flush x =
      modify
        (λ s. record s { sensors = record s.sensors { rows = put sensor_key x s.sensors.rows } })

  unfoldable pub update : ℕ → SensorUpdate Json → Action (Inventory Json) (Sensor Json)
  update i payload = do
    x ← get_sensor i
    is_active ← lift (set_required payload.is_active x.is_active)
    flush (changed payload is_active x)
    pure (changed payload is_active x)

  -- The channels go with their sensor.
  unfoldable pub delete_sensor : (ℕ → Result Done) → ℕ → Action (Inventory Json) Done
  delete_sensor references i = do
    x ← get_sensor i
    channels ← gets (λ s. select (child_of channel_sensor x.id) s.channels.rows)
    lift (clear_all references channels)
    modify (λ s. record s {
      sensors = record s.sensors { rows = delete sensor_key x.id s.sensors.rows };
      channels = record s.channels {
        rows = discard (child_of channel_sensor x.id) s.channels.rows;
      };
    })
