-- ===== src/Inventory/Records.antt =====
-- The tables of app/models/project.py, device.py, sensor.py and channel.py. Objects of JSON are of a type
-- that is not looked into, and `none` is JSON's null or NULL, which are both read back as None; dates and times
-- are numbers. The moment of creation that the database fills in
-- is left out.
use zhiwei_backend.Prelude.{ℕ, Bool, ◌&&◌, List, Option, String, str_eq, ◌==◌}
use zhiwei_backend.Prelude.Rows.Tables.{Table}
use zhiwei_backend.Access.Guards.{UserProject}

pub record Project (Json : Type 0) : Type 0 where
  pub id : ℕ
  pub name : String
  pub description : Option String
  pub location : Option Json
  pub created_by : Option ℕ

pub record Device (Json : Type 0) : Type 0 where
  pub id : ℕ
  pub project_id : ℕ
  pub device_code : String
  pub device_name : Option String
  pub protocol : String
  pub config : Option Json
  pub status : String
  pub last_seen : Option ℕ
  pub note : Option String

pub record Sensor (Json : Type 0) : Type 0 where
  pub id : ℕ
  pub device_id : ℕ
  pub sensor_code : String
  pub sensor_name : Option String
  pub sensor_type : Option String
  pub model : Option String
  pub manufacturer : Option String
  pub install_date : Option ℕ
  pub last_calibration : Option ℕ
  pub position : Option Json
  pub is_active : Bool
  pub note : Option String
  pub metadata : Option Json

pub record Channel (Json : Type 0) : Type 0 where
  pub id : ℕ
  pub sensor_id : ℕ
  pub channel_code : String
  pub channel_type : Option String
  pub unit : Option String
  pub sampling_rate : ℕ
  pub position_offset : Option Json
  pub axis : Option String
  pub alert_rules : Option (List Json)
  pub is_active : Bool
  pub note : Option String

pub record Inventory (Json : Type 0) : Type 0 where
  pub projects : Table (Project Json)
  pub devices : Table (Device Json)
  pub sensors : Table (Sensor Json)
  pub channels : Table (Channel Json)
  pub links : List UserProject

module _ {Json : Type 0} where
  abbrev pub project_key : Project Json → ℕ
  project_key p = p.id

  abbrev pub device_key : Device Json → ℕ
  device_key d = d.id

  abbrev pub sensor_key : Sensor Json → ℕ
  sensor_key s = s.id

  abbrev pub channel_key : Channel Json → ℕ
  channel_key c = c.id

  -- the foreign keys
  abbrev pub device_project : Device Json → ℕ
  device_project d = d.project_id

  abbrev pub sensor_device : Sensor Json → ℕ
  sensor_device s = s.device_id

  abbrev pub channel_sensor : Channel Json → ℕ
  channel_sensor c = c.sensor_id

  -- the unique constraints
  abbrev pub has_device_code : String → Device Json → Bool
  has_device_code code d = str_eq d.device_code code

  abbrev pub has_sensor_code : ℕ × String → Sensor Json → Bool
  has_sensor_code (device, code) s = (s.device_id == device) && str_eq s.sensor_code code

  abbrev pub has_channel_code : ℕ × String → Channel Json → Bool
  has_channel_code (sensor, code) c = (c.sensor_id == sensor) && str_eq c.channel_code code
