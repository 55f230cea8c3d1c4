-- ===== src/Inventory/Tests.antt =====
-- Calls on an inventory that starts empty, and the theorem of the calls there.
use zhiwei_backend.Prelude.{
  Done, ℕ, ◌≡◌, refl, true, List, [], ◌∷◌, none, some, String, arith, Exception, Result, ok, err,
  biz_exception,
}
use zhiwei_backend.Users.Table.{User}
use zhiwei_backend.Inventory.Records.{Inventory}
use zhiwei_backend.Inventory.Payloads.{ProjectCreate, DeviceCreate, SensorCreate, ChannelCreate}
use zhiwei_backend.Inventory.Invariant.{IsSound}
use zhiwei_backend.Inventory.Projects
use zhiwei_backend.Inventory.Devices
use zhiwei_backend.Inventory.Sensors
use zhiwei_backend.Inventory.Channels
use zhiwei_backend.Inventory.Requests.{Request, handle, AllKept, handle-AllKept}

abbrev root : User
root = record {
  id = 1;
  username = "root";
  email = "root@a";
  hashed_password = "secret";
  role = "admin";
  is_active = true;
}

abbrev empty : Inventory String
empty = record {
  projects = record { rows = []; next_id = 1 };
  devices = record { rows = []; next_id = 1 };
  sensors = record { rows = []; next_id = 1 };
  channels = record { rows = []; next_id = 1 };
  links = [];
}

abbrev bridge : ProjectCreate String
bridge = record { name = "bridge"; description = none; location = none }

abbrev logger : String → DeviceCreate String
logger protocol = record {
  project_id = 1;
  device_code = "logger";
  device_name = none;
  protocol = protocol;
  config = "{}";
  note = none;
}

abbrev gauge : SensorCreate String
gauge = record {
  device_id = 1;
  sensor_code = "gauge";
  sensor_name = none;
  sensor_type = none;
  model = none;
  manufacturer = none;
  install_date = none;
  last_calibration = none;
  position = none;
  metadata = none;
  note = none;
}

abbrev strain : ChannelCreate String
strain = record {
  sensor_id = 1;
  channel_code = "strain";
  channel_type = none;
  unit = none;
  sampling_rate = 50;
  position_offset = none;
  axis = none;
  alert_rules = some [];
  note = none;
}

abbrev protocols : List String
protocols = "mqtt" ∷ "http_json" ∷ []

abbrev anything : ℕ → Result Done
anything i = ok tt

-- A protocol that is not registered, a code that is taken, a device that has a sensor, and the deletion
-- of a sensor with its channel.
abbrev requests : List (Request String)
requests =
    Request.create_project bridge root
    ∷ Request.create_device (logger "zigbee")
    ∷ Request.create_device (logger "mqtt")
    ∷ Request.create_device (logger "mqtt")
    ∷ Request.create_sensor gauge
    ∷ Request.create_channel strain
    ∷ Request.create_channel strain
    ∷ Request.delete_device 1
    ∷ Request.delete_sensor 1
    ∷ Request.delete_device 1
    ∷ Request.delete_project 1
    ∷ []

abbrev outcomes : List (Request String) → Inventory String → List (Result Done)
outcomes [] s = []
outcomes (r ∷ rs) s = let (out, u) = handle protocols anything anything r s in out ∷ outcomes rs u

outcomes-requests :
    outcomes requests empty
    ≡ ok tt
      ∷ err (biz_exception "PROTOCOL_NOT_REGISTERED" "未注册的协议" 422)
      ∷ ok tt
      ∷ err (biz_exception "DEVICE_CODE_EXISTS" "设备编码已存在" 409)
      ∷ ok tt
      ∷ ok tt
      ∷ err (biz_exception "CHANNEL_CODE_EXISTS" "通道编码已存在" 409)
      ∷ err Exception.integrity_error
      ∷ ok tt
      ∷ ok tt
      ∷ ok tt
      ∷ []
unfolding handle Projects.create_project Projects.delete_project Devices.create
    Devices.delete_device Sensors.create Sensors.delete_sensor Channels.create
outcomes-requests = refl

empty-IsSound : IsSound empty
empty-IsSound = record {
  projects = record { distinct = tt; below = tt };
  devices = record { distinct = tt; below = tt };
  sensors = record { distinct = tt; below = tt };
  channels = record { distinct = tt; below = tt };
  device_parents = λ i e. refl;
  sensor_parents = λ i e. refl;
  channel_parents = λ i e. refl;
  device_codes = λ k. omega arith;
  sensor_codes = λ k. omega arith;
  channel_codes = λ k. omega arith;
}

handle-AllKept_example : AllKept protocols anything anything requests empty
handle-AllKept_example = handle-AllKept protocols anything anything requests empty empty-IsSound
