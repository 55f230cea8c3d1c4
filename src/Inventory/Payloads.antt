-- ===== src/Inventory/Payloads.antt =====
-- The payloads of app/schemas/project.py, device.py and sensor.py, and what `setattr` over
-- `model_dump(exclude_unset=True)` makes of an attribute.
use zhiwei_backend.Prelude.{ℕ, Bool, List, Option, none, some, String, Exception, Result, ok, err}

-- A field of an update: not set, set to None, or set to a value.
abbrev pub Change : Type 0 → Type 0
Change A = Option (Option A)

-- a column that may be NULL
abbrev pub set_nullable : {A : Type 0} → Change A → Option A → Option A
set_nullable none old = old
set_nullable (some new) old = new

-- a column that is NOT NULL: the flush of None is refused
abbrev pub set_required : {A : Type 0} → Change A → A → Result A
set_required none old = ok old
set_required (some none) old = err Exception.integrity_error
set_required (some (some new)) old = ok new

pub record ProjectCreate (Json : Type 0) : Type 0 where
  pub name : String
  pub description : Option String
  pub location : Option Json

pub record ProjectUpdate (Json : Type 0) : Type 0 where
  pub name : Change String
  pub description : Change String
  pub location : Change Json

pub record DeviceCreate (Json : Type 0) : Type 0 where
  pub project_id : ℕ
  pub device_code : String
  pub device_name : Option String
  pub protocol : String
  pub config : Json
  pub note : Option String

pub record DeviceUpdate (Json : Type 0) : Type 0 where
  pub device_name : Change String
  pub protocol : Change String
  pub config : Change Json
  pub status : Change String
  pub last_seen : Change ℕ
  pub note : Change String

pub record SensorCreate (Json : Type 0) : Type 0 where
  pub device_id : ℕ
  pub sensor_code : String
  pub sensor_name : Option String
  pub sensor_type : Option String
  pub model : Option String
  pub manufacturer : Option String
  pub install_date : Option ℕ
  pub last_calibration : Option ℕ
  pub position : Option Json
  pub metadata : Option Json
  pub note : Option String

pub record SensorUpdate (Json : Type 0) : Type 0 where
  pub sensor_name : Change String
  pub sensor_type : Change String
  pub model : Change String
  pub manufacturer : Change String
  pub install_date : Change ℕ
  pub last_calibration : Change ℕ
  pub position : Change Json
  pub is_active : Change Bool
  pub metadata : Change Json
  pub note : Change String

pub record ChannelCreate (Json : Type 0) : Type 0 where
  pub sensor_id : ℕ
  pub channel_code : String
  pub channel_type : Option String
  pub unit : Option String
  pub sampling_rate : ℕ
  pub position_offset : Option Json
  pub axis : Option String
  pub alert_rules : Option (List Json)
  pub note : Option String

pub record ChannelUpdate (Json : Type 0) : Type 0 where
  pub channel_type : Change String
  pub unit : Change String
  pub sampling_rate : Change ℕ
  pub position_offset : Change Json
  pub axis : Change String
  pub alert_rules : Change (List Json)
  pub is_active : Change Bool
  pub note : Change String
