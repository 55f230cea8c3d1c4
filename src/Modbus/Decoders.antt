-- ===== src/Modbus/Decoders.antt =====
-- The register decoders of app/plugins/protocols/modbus_tcp_adapter.py. A register is a number below
-- 65536; a register that is missing is Python's IndexError.
pub mod Signed
use zhiwei_backend.Prelude.{
  ℕ, ◌-◌, ◌*◌, ◌/◌, ◌%◌, List, [], ◌∷◌, ◌++◌, Option, none, some, String, bit_or, leb, str_eq,
  if◌then◌else◌, Exception, Result, ok, err,
}
use zhiwei_backend.Prelude.Int.{ℤ, pos, negsuc}
use zhiwei_backend.Prelude.Floats.{Floats}

-- `struct.pack(">H", r)` and `struct.pack(">I", w)`
unfoldable pub pack_h : ℕ → List ℕ
pack_h r = r / 0x100 ∷ r % 0x100 ∷ []

unfoldable pub pack_i : ℕ → List ℕ
pack_i w = w / 0x1000000 ∷ w / 0x10000 % 0x100 ∷ w / 0x100 % 0x100 ∷ w % 0x100 ∷ []

-- `(a << 16) | b`
unfoldable pub join16 : ℕ → ℕ → ℕ
join16 a b = bit_or (a * 0x10000) b

-- `val -= 0x10000` where the sign bit is set
unfoldable pub signed16 : ℕ → ℤ
signed16 val = if leb 0x8000 val then negsuc (0x10000 - val - 1) else pos val

unfoldable pub signed32 : ℕ → ℤ
signed32 val = if leb 0x80000000 val then negsuc (0x100000000 - val - 1) else pos val

pub data DataType : Type 0 where
  uint16 int16 uint32 int32 float32 float64 : DataType

-- `_DECODERS.get(dtype, _DECODERS["uint16"])`: the key that is found
unfoldable pub data_type : String → DataType
data_type name =
    if str_eq name "uint16"
    then DataType.uint16
    else if str_eq name "int16"
    then DataType.int16
    else if str_eq name "uint32"
    then DataType.uint32
    else if str_eq name "int32"
    then DataType.int32
    else if str_eq name "float32"
    then DataType.float32
    else if str_eq name "float64"
    then DataType.float64
    else DataType.uint16

-- the second component of the table's entries
abbrev pub register_count : DataType → ℕ
register_count DataType.uint16 = 1
register_count DataType.int16 = 1
register_count DataType.uint32 = 2
register_count DataType.int32 = 2
register_count DataType.float32 = 2
register_count DataType.float64 = 4

module _ (floats : Floats) where
  open floats use {Float, of_int, unpack_f, unpack_d}

  unfoldable pub decode_uint16 : List ℕ → Result Float
  decode_uint16 (r ∷ _) = ok (of_int (pos r))
  decode_uint16 [] = err Exception.index_error

  unfoldable pub decode_int16 : List ℕ → Result Float
  decode_int16 (r ∷ _) = ok (of_int (signed16 r))
  decode_int16 [] = err Exception.index_error

  unfoldable pub decode_uint32 : List ℕ → Result Float
  decode_uint32 (a ∷ b ∷ _) = ok (of_int (pos (join16 a b)))
  decode_uint32 _ = err Exception.index_error

  unfoldable pub decode_int32 : List ℕ → Result Float
  decode_int32 (a ∷ b ∷ _) = ok (of_int (signed32 (join16 a b)))
  decode_int32 _ = err Exception.index_error

  unfoldable pub decode_float32 : List ℕ → Result Float
  decode_float32 (a ∷ b ∷ _) = ok (unpack_f (pack_h a ++ pack_h b))
  decode_float32 _ = err Exception.index_error

  unfoldable pub decode_float64 : List ℕ → Result Float
  decode_float64 (a ∷ b ∷ c ∷ d ∷ _) = ok (unpack_d (pack_i (join16 a b) ++ pack_i (join16 c d)))
  decode_float64 _ = err Exception.index_error

  -- the first component of the table's entries
  unfoldable pub decode : DataType → List ℕ → Result Float
  unfolding decode_uint16 decode_int16 decode_uint32 decode_int32 decode_float32 decode_float64
  decode DataType.uint16 = decode_uint16
  decode DataType.int16 = decode_int16
  decode DataType.uint32 = decode_uint32
  decode DataType.int32 = decode_int32
  decode DataType.float32 = decode_float32
  decode DataType.float64 = decode_float64
