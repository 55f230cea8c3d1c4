-- ===== src/Modbus/RtuAdapter.antt =====
-- `ModbusRtuOverTcpAdapter` of app/plugins/protocols/modbus_rtu_tcp.py, and `RawReading` of
-- app/plugins/protocols/base.py.
use zhiwei_backend.Prelude.{
  ℕ, suc, ◌+◌, ◌-◌, ◌*◌, not, ◌||◌, List, [], ◌∷◌, ◌++◌, Option, none, some, String, bit_and,
  bit_or, ltb, ◌==◌, if◌then◌else◌, Exception, Result, ok, err, then_result, length, get_or, take,
  drop,
}
use zhiwei_backend.Prelude.Int.{ℤ, pos, negsuc}
use zhiwei_backend.Prelude.Floats.{Floats}
use zhiwei_backend.Modbus.Frames.{Bytes, read_holding, split_rtu_frames}
use zhiwei_backend.Modbus.Decoders.{DataType, data_type, register_count, decode}

pub record RawReading (Float : Type 0) : Type 0 where
  pub device_code : String
  pub channel_code : String
  pub timestamp : ℕ
  pub value : Float
  pub unit : String
  pub quality : String

-- An entry of the `registers` list of a device's configuration; `none` is a key that is missing. The values
-- are any JSON: `address` is what `int` makes of the entry, `scale` what `float` makes of it, or what these
-- raise; `dtype` is the value as a key of `_DECODERS`, or the TypeError of a value that cannot be one.
pub record Register (Float : Type 0) : Type 0 where
  pub address : Option (Result ℤ)
  pub dtype : Option (Result String)
  pub channel_code : Option String
  pub scale : Option (Result Float)
  pub unit : Option String

pub record RtuAdapter (Float : Type 0) : Type 0 where
  pub slave_id : ℕ
  pub device_code : String
  pub registers : List (Register Float)

abbrev pub or_default {ℓ} : {A : Type ℓ} → Option A → A → A
or_default none d = d
or_default (some a) d = a

-- `[(data[i] << 8) | data[i + 1] for i in range(0, len(data) - 1, 2)]`
unfoldable pub to_registers : Bytes → List ℕ
to_registers (hi ∷ lo ∷ rest) = bit_or (hi * 0x100) lo ∷ to_registers rest
to_registers _ = []

-- `int(reg["address"])`
abbrev pub address_of : Option (Result ℤ) → Result ℤ
address_of none = err Exception.key_error
address_of (some address) = address

-- `_DECODERS.get(reg.get("data_type", "uint16"), _DECODERS["uint16"])`
abbrev pub data_type_of : Option (Result String) → Result DataType
data_type_of none = ok (data_type "uint16")
data_type_of (some (ok dtype)) = ok (data_type dtype)
data_type_of (some (err e)) = err e

-- `registers[idx : idx + count]` for `idx` = -(m + 1): both ends count from the end where they are negative,
-- and none is before the first.
abbrev pub slice_from_end : ℕ → ℕ → List ℕ → List ℕ
slice_from_end m count registers =
    let first = length registers - suc m in
    let last = if ltb count (suc m) then (length registers + count) - suc m else count - suc m in
    take (last - first) (drop first registers)

-- The registers that an entry reads from a response; `none` where the response is too short.
unfoldable pub window : ℕ → ℤ → List ℕ → Option (List ℕ)
window count (pos idx) registers =
    if ltb (length registers) (idx + count) then none else some (take count (drop idx registers))
window count (negsuc m) registers =
    if ltb (length registers + suc m) count then none else some (slice_from_end m count registers)

module _ (floats : Floats) where
  open floats use {Float, of_int, mul}

  -- `float(reg.get("scale", 1.0))`
  abbrev pub scale_of : Option (Result Float) → Result Float
  scale_of none = ok (of_int (pos 1))
  scale_of (some scale) = scale

  abbrev pub reading : String → Register Float → ℕ → Float → RawReading Float
  reading device_code reg ts value = record {
    device_code = device_code;
    channel_code = or_default reg.channel_code "";
    timestamp = ts;
    value = value;
    unit = or_default reg.unit "";
    quality = "good";
  }

  abbrev pub decode_window :
      String → ℕ → Register Float → DataType → Option (List ℕ) → Result (Option (RawReading Float))
  decode_window device_code ts reg t none = ok none
  decode_window device_code ts reg t (some regs) = then_result (decode floats t regs) (λ value.
      then_result (scale_of reg.scale)
        (λ scale. ok (some (reading device_code reg ts (mul value scale)))))

  -- The body of the loop over the configured registers: `none` is its `continue`.
  unfoldable pub decode_register :
      String → ℕ → List ℕ → Register Float → Result (Option (RawReading Float))
  decode_register device_code ts registers reg = then_result (address_of reg.address) (λ idx.
      then_result (data_type_of reg.dtype)
        (λ t. decode_window device_code ts reg t (window (register_count t) idx registers)))

  abbrev pub cons_some :
      Option (RawReading Float) → List (RawReading Float) → List (RawReading Float)
  cons_some none readings = readings
  cons_some (some r) readings = r ∷ readings

  -- The loop over the configured registers.
  unfoldable pub decode_registers :
      String → ℕ → List ℕ → List (Register Float) → Result (List (RawReading Float))
  decode_registers device_code ts registers [] = ok []
  decode_registers device_code ts registers (reg ∷ regs) =
      let rest = decode_registers device_code ts registers regs in
      then_result (decode_register device_code ts registers reg)
        (λ r. then_result rest (λ readings. ok (cons_some r readings)))

  -- `_decode_frame`, with the clock's value at the call.
  unfoldable pub decode_frame : RtuAdapter Float → ℕ → Bytes → Result (List (RawReading Float))
  decode_frame adapter ts frame =
      if ltb (length frame) 5 || not (get_or frame 0 0 == adapter.slave_id)
      then ok []
      else if not (bit_and (get_or frame 1 0) 0x80 == 0)
      then ok []
      else if not (get_or frame 1 0 == read_holding)
      then ok []
      else decode_registers adapter.device_code ts
          (to_registers (take (get_or frame 2 0) (drop 3 frame))) adapter.registers

  -- The frames of a buffer, one after the other; `now k` is the clock's value at frame k.
  unfoldable pub decode_frames :
      RtuAdapter Float → (ℕ → ℕ) → ℕ → List Bytes → Result (List (RawReading Float))
  decode_frames adapter now k [] = ok []
  decode_frames adapter now k (frame ∷ frames) =
      let rest = decode_frames adapter now (suc k) frames in
      then_result (decode_frame adapter (now k) frame)
        (λ readings. then_result rest (λ more. ok (readings ++ more)))

  unfoldable pub decode_stream :
      RtuAdapter Float → (ℕ → ℕ) → Bytes → Result (List (RawReading Float))
  decode_stream adapter now stream = decode_frames adapter now 0 (split_rtu_frames stream).0
