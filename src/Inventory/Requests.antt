-- ===== src/Inventory/Requests.antt =====
-- Any sequence of calls of `ProjectService`, `DeviceService`, `SensorService` and `ChannelService`
-- but for `assign_user`. Of an outcome, only whether it is a return or which error was raised is kept.
use zhiwei_backend.Prelude.{Done, ℕ, List, [], ◌∷◌, String, Result, ok, err}
use zhiwei_backend.Users.Table.{User}
use zhiwei_backend.Inventory.Records.{Inventory}
use zhiwei_backend.Inventory.Payloads.{
  ProjectCreate, ProjectUpdate, DeviceCreate, DeviceUpdate, SensorCreate, SensorUpdate,
  ChannelCreate, ChannelUpdate,
}
use zhiwei_backend.Inventory.Projects
use zhiwei_backend.Inventory.Devices
use zhiwei_backend.Inventory.Sensors
use zhiwei_backend.Inventory.Channels
use zhiwei_backend.Inventory.Invariant.{IsSound, Kept}
use zhiwei_backend.Inventory.Calls

pub data Request (Json : Type 0) : Type 0 where
  create_project : ProjectCreate Json → User → Request Json
  update_project : ℕ → ProjectUpdate Json → Request Json
  delete_project : ℕ → Request Json
  create_device : DeviceCreate Json → Request Json
  update_device : ℕ → DeviceUpdate Json → Request Json
  delete_device : ℕ → Request Json
  create_sensor : SensorCreate Json → Request Json
  update_sensor : ℕ → SensorUpdate Json → Request Json
  delete_sensor : ℕ → Request Json
  create_channel : ChannelCreate Json → Request Json
  update_channel : ℕ → ChannelUpdate Json → Request Json
  delete_channel : ℕ → Request Json

abbrev forget : {A : Type 0} → Result A → Result Done
forget (ok a) = ok tt
forget (err e) = err e

abbrev outcome : {A S : Type 0} → Result A × S → Result Done × S
outcome (r, s) = (forget r, s)

-- The registered protocols, and what the tables outside the inventory answer to the deletion of a
-- project and of a channel.
module _ {Json : Type 0} (protocols : List String) (models readings : ℕ → Result Done) where
  unfoldable pub handle : Request Json → Inventory Json → Result Done × Inventory Json
  handle (create_project payload creator) s = outcome (Projects.create_project payload creator s)
  handle (update_project i payload) s = outcome (Projects.update_project i payload s)
  handle (delete_project i) s = outcome (Projects.delete_project models i s)
  handle (create_device payload) s = outcome (Devices.create protocols payload s)
  handle (update_device i payload) s = outcome (Devices.update protocols i payload s)
  handle (delete_device i) s = outcome (Devices.delete_device i s)
  handle (create_sensor payload) s = outcome (Sensors.create payload s)
  handle (update_sensor i payload) s = outcome (Sensors.update i payload s)
  handle (delete_sensor i) s = outcome (Sensors.delete_sensor readings i s)
  handle (create_channel payload) s = outcome (Channels.create payload s)
  handle (update_channel i payload) s = outcome (Channels.update i payload s)
  handle (delete_channel i) s = outcome (Channels.delete_channel readings i s)

  outcome-Kept :
      {A : Type 0} (s : Inventory Json) (out : Result A × Inventory Json)
      → Kept s out
      → Kept s (outcome out)
  outcome-Kept s (ok a, u) k = record { sound = k.sound; unchanged = k.unchanged }
  outcome-Kept s (err e, u) k = record { sound = k.sound; unchanged = k.unchanged }

  handle-Kept : (r : Request Json) (s : Inventory Json) → IsSound s → Kept s (handle r s)
  unfolding handle
  handle-Kept (create_project payload creator) s h =
      outcome-Kept s _ (Calls.Projects.create_project-Kept payload creator s h)
  handle-Kept (update_project i payload) s h =
      outcome-Kept s _ (Calls.Projects.update_project-Kept i payload s h)
  handle-Kept (delete_project i) s h =
      outcome-Kept s _ (Calls.Projects.delete_project-Kept models i s h)
  handle-Kept (create_device payload) s h =
      outcome-Kept s _ (Calls.Devices.create-Kept protocols payload s h)
  handle-Kept (update_device i payload) s h =
      outcome-Kept s _ (Calls.Devices.update-Kept protocols i payload s h)
  handle-Kept (delete_device i) s h = outcome-Kept s _ (Calls.Devices.delete_device-Kept i s h)
  handle-Kept (create_sensor payload) s h = outcome-Kept s _ (Calls.Sensors.create-Kept payload s h)
  handle-Kept (update_sensor i payload) s h =
      outcome-Kept s _ (Calls.Sensors.update-Kept i payload s h)
  handle-Kept (delete_sensor i) s h =
      outcome-Kept s _ (Calls.Sensors.delete_sensor-Kept readings i s h)
  handle-Kept (create_channel payload) s h =
      outcome-Kept s _ (Calls.Channels.create-Kept payload s h)
  handle-Kept (update_channel i payload) s h =
      outcome-Kept s _ (Calls.Channels.update-Kept i payload s h)
  handle-Kept (delete_channel i) s h =
      outcome-Kept s _ (Calls.Channels.delete_channel-Kept readings i s h)

  -- Every call of a sequence, from the first on, leaves a sound inventory, and the one before where it
  -- raises.
  unfoldable pub AllKept : List (Request Json) → Inventory Json → Type 0
  AllKept [] s = IsSound s
  AllKept (r ∷ requests) s = Kept s (handle r s) × AllKept requests (handle r s).1

  -- From a sound inventory, whatever projects, devices, sensors and channels are created, changed and
  -- deleted, in whatever order: after every call the keys are distinct and below the sequences, each
  -- device is of a project that is there, each sensor of a device and each channel of a sensor, and no
  -- two devices have one code, nor two sensors of a device or two channels of a sensor. A call that
  -- raises leaves the inventory as it was.
  pub handle-AllKept :
      (requests : List (Request Json)) (s : Inventory Json) → IsSound s → AllKept requests s
  unfolding AllKept
  handle-AllKept [] s h = h
  handle-AllKept (r ∷ requests) s h =
      let k = handle-Kept r s h in (k, handle-AllKept requests (handle r s).1 k.sound)
