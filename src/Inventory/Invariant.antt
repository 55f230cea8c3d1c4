-- ===== src/Inventory/Invariant.antt =====
-- The invariant of the inventory, table by table.
use zhiwei_backend.Prelude.{◌≡◌, refl, List, Exception, Result, ok, err}
use zhiwei_backend.Prelude.Rows.Tables.{Table, IsKeyed, NoOrphans, Unique}
use zhiwei_backend.Access.Guards.{UserProject}
use zhiwei_backend.Inventory.Records.{
  Project, Device, Sensor, Channel, Inventory, project_key, device_key, sensor_key, channel_key,
  device_project, sensor_device, channel_sensor, has_device_code, has_sensor_code, has_channel_code,
}

module _ {Json : Type 0} where
  -- The keys are distinct and below the sequences; every device is of a project that is there, every
  -- sensor of a device and every channel of a sensor; no two devices have one code, nor two sensors of
  -- a device, nor two channels of a sensor.
  pub record IsSound (s : Inventory Json) : Type 0 where
    pub projects : IsKeyed project_key s.projects
    pub devices : IsKeyed device_key s.devices
    pub sensors : IsKeyed sensor_key s.sensors
    pub channels : IsKeyed channel_key s.channels
    pub device_parents : NoOrphans project_key device_project s.projects.rows s.devices.rows
    pub sensor_parents : NoOrphans device_key sensor_device s.devices.rows s.sensors.rows
    pub channel_parents : NoOrphans sensor_key channel_sensor s.sensors.rows s.channels.rows
    pub device_codes : Unique device_key has_device_code s.devices.rows
    pub sensor_codes : Unique sensor_key has_sensor_code s.sensors.rows
    pub channel_codes : Unique channel_key has_channel_code s.channels.rows

  -- What a call leaves: the new inventory where it returns, the one before where it raises.
  abbrev pub rolled_back :
      {A : Type 0} → Result A → Inventory Json → Inventory Json → Inventory Json
  rolled_back (ok a) new old = new
  rolled_back (err e) new old = old

  -- A call leaves a sound inventory, and the one before where it raises.
  pub record Kept {A : Type 0} (s : Inventory Json) (out : Result A × Inventory Json) : Type 0 where
    pub sound : IsSound out.1
    pub unchanged : out.1 ≡ rolled_back out.0 out.1 s

  pub Kept-refused :
      {A : Type 0} (s : Inventory Json) (e : Exception) → IsSound s → Kept {A = A} s (err e, s)
  Kept-refused s e h = record { sound = h; unchanged = refl }

  -- Other projects in a sound inventory.
  pub IsSound-projects :
      (s : Inventory Json) (new_projects : Table (Project Json)) (links : List UserProject)
      → IsSound s
      → IsKeyed project_key new_projects
      → NoOrphans project_key device_project new_projects.rows s.devices.rows
      → IsSound (record s { projects = new_projects; links = links })
  IsSound-projects s new_projects links h projects device_parents = record {
    projects = projects;
    devices = h.devices;
    sensors = h.sensors;
    channels = h.channels;
    device_parents = device_parents;
    sensor_parents = h.sensor_parents;
    channel_parents = h.channel_parents;
    device_codes = h.device_codes;
    sensor_codes = h.sensor_codes;
    channel_codes = h.channel_codes;
  }

  -- Other devices in a sound inventory.
  pub IsSound-devices :
      (s : Inventory Json) (new_devices : Table (Device Json))
      → IsSound s
      → IsKeyed device_key new_devices
      → NoOrphans project_key device_project s.projects.rows new_devices.rows
      → NoOrphans device_key sensor_device new_devices.rows s.sensors.rows
      → Unique device_key has_device_code new_devices.rows
      → IsSound (record s { devices = new_devices })
  IsSound-devices s new_devices h devices device_parents sensor_parents device_codes = record {
    projects = h.projects;
    devices = devices;
    sensors = h.sensors;
    channels = h.channels;
    device_parents = device_parents;
    sensor_parents = sensor_parents;
    channel_parents = h.channel_parents;
    device_codes = device_codes;
    sensor_codes = h.sensor_codes;
    channel_codes = h.channel_codes;
  }

  -- Other sensors and channels in a sound inventory.
  pub IsSound-sensors :
      (s : Inventory Json) (new_sensors : Table (Sensor Json)) (new_channels : Table (Channel Json))
      → IsSound s
      → IsKeyed sensor_key new_sensors
      → IsKeyed channel_key new_channels
      → NoOrphans device_key sensor_device s.devices.rows new_sensors.rows
      → NoOrphans sensor_key channel_sensor new_sensors.rows new_channels.rows
      → Unique sensor_key has_sensor_code new_sensors.rows
      → Unique channel_key has_channel_code new_channels.rows
      → IsSound (record s { sensors = new_sensors; channels = new_channels })
  IsSound-sensors s new_sensors new_channels h sensors channels sensor_parents channel_parents
        sensor_codes channel_codes =
      record {
        projects = h.projects;
        devices = h.devices;
        sensors = sensors;
        channels = channels;
        device_parents = h.device_parents;
        sensor_parents = sensor_parents;
        channel_parents = channel_parents;
        device_codes = h.device_codes;
        sensor_codes = sensor_codes;
        channel_codes = channel_codes;
      }
