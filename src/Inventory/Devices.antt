-- ===== src/Inventory/Devices.antt =====
-- `DeviceService` of app/services/device_service.py. `protocols` are the names of the adapter registry.
use zhiwei_backend.Prelude.{
  Done, ℕ, Bool, true, false, not, ltb, List, Option, none, some, String, str_eq, Action, Exception,
  ok, biz_exception, pure, raise, raise_if, lift, gets, modify, some_or, scalar_one_or_none, ◌>>=◌,
  ◌>>◌, [], ◌∷◌, ◌||◌,
}
use zhiwei_backend.Prelude.Rows.{select, count, get, put, delete}
use zhiwei_backend.Prelude.Rows.Pages.{order_by, page_of}
use zhiwei_backend.Prelude.Rows.Tables.{insert, child_of}
use zhiwei_backend.Inventory.Records.{
  Project, Device, Inventory, project_key, device_key, device_project, sensor_device,
  has_device_code,
}
use zhiwei_backend.Inventory.Payloads.{
  Change, DeviceCreate, DeviceUpdate, set_nullable, set_required,
}

-- `protocol in AdapterRegistry.names()`
abbrev pub is_registered : String → List String → Bool
is_registered protocol [] = false
is_registered protocol (name ∷ names) = str_eq name protocol || is_registered protocol names

-- `"protocol" in data and data["protocol"] not in …`: None is no name
abbrev pub is_unknown : Change String → List String → Bool
is_unknown none names = false
is_unknown (some none) names = true
is_unknown (some (some protocol)) names = not (is_registered protocol names)

-- the name of the protocol is left out of the message
abbrev pub not_registered : Exception
not_registered = biz_exception "PROTOCOL_NOT_REGISTERED" "未注册的协议" 422

-- `if existing is not None: raise …`
abbrev pub refuse_existing : {S : Type 0} {R : Type 0} → Option R → Exception → Action S Done
refuse_existing none e = pure tt
refuse_existing (some r) e = raise e

module _ {Json : Type 0} where
  abbrev pub get_device : ℕ → Action (Inventory Json) (Device Json)
  get_device i s =
      some_or (get device_key i s.devices.rows) (biz_exception "DEVICE_NOT_FOUND" "设备不存在" 404) s

  abbrev pub get_parent : ℕ → Action (Inventory Json) (Project Json)
  get_parent i s =
      some_or (get project_key i s.projects.rows) (biz_exception "PROJECT_NOT_FOUND" "子项不存在" 404) s

  unfoldable pub list_by_project : ℕ → ℕ → ℕ → Inventory Json → List (Device Json) × ℕ
  list_by_project project page size s = (
    page_of page size
        (order_by device_key (select (child_of device_project project) s.devices.rows)),
    count (child_of device_project project) s.devices.rows,
  )

  abbrev pub new_device : DeviceCreate Json → ℕ → Device Json
  new_device payload i = record {
    id = i;
    project_id = payload.project_id;
    device_code = payload.device_code;
    device_name = payload.device_name;
    protocol = payload.protocol;
    config = some payload.config;
    status = "offline";
    last_seen = none;
    note = payload.note;
  }

  abbrev pub existing_device : String → Action (Inventory Json) (Option (Device Json))
  existing_device code s = (scalar_one_or_none (select (has_device_code code) s.devices.rows), s)

  abbrev pub insert_device : DeviceCreate Json → Action (Inventory Json) (Device Json)
  insert_device payload s =
      let d = new_device payload s.devices.next_id in
      (ok d, record s { devices = insert d s.devices })

  unfoldable pub create : List String → DeviceCreate Json → Action (Inventory Json) (Device Json)
  create protocols payload = do
    get_parent payload.project_id
    raise_if (not (is_registered payload.protocol protocols)) not_registered
    existing ← existing_device payload.device_code
    refuse_existing existing (biz_exception "DEVICE_CODE_EXISTS" "设备编码已存在" 409)
    insert_device payload

  abbrev pub changed : DeviceUpdate Json → String → String → Device Json → Device Json
  changed payload protocol status d = record d {
    device_name = set_nullable payload.device_name d.device_name;
    protocol = protocol;
    config = set_nullable payload.config d.config;
    status = status;
    last_seen = set_nullable payload.last_seen d.last_seen;
    note = set_nullable payload.note d.note;
  }

  abbrev pub flush : Device Json → Action (Inventory Json) Done
  flush d =
      modify
        (λ s. record s { devices = record s.devices { rows = put device_key d s.devices.rows } })

  unfoldable pub update :
      List String → ℕ → DeviceUpdate Json → Action (Inventory Json) (Device Json)
  update protocols i payload = do
    d ← get_device i
    raise_if (is_unknown payload.protocol protocols) not_registered
    protocol ← lift (set_required payload.protocol d.protocol)
    status ← lift (set_required payload.status d.status)
    flush (changed payload protocol status d)
    pure (changed payload protocol status d)

  -- The sensors of a deleted device would lose their NOT NULL reference.
  unfoldable pub delete_device : ℕ → Action (Inventory Json) Done
  delete_device i = do
    d ← get_device i
    sensors ← gets (λ s. count (child_of sensor_device d.id) s.sensors.rows)
    raise_if (ltb 0 sensors) Exception.integrity_error
    modify (λ s. record s {
      devices = record s.devices { rows = delete device_key d.id s.devices.rows };
    })
