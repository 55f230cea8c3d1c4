-- ===== src/Modbus/Crc.antt =====
-- The checksum of app/plugins/protocols/modbus_rtu_tcp.py.
use zhiwei_backend.Prelude.{
  ℕ, zero, suc, ◌<◌, arith, ◌/◌, ◌≡◌, refl, List, [], ◌∷◌, bit_and, bit_xor, ◌==◌, if◌then◌else◌,
}
use zhiwei_backend.Prelude.Bits.{bit_xor-lt}

-- One round of the inner loop.
crc_bit : ℕ → ℕ
crc_bit crc = if bit_and crc 0x0001 == 0 then crc / 2 else bit_xor (crc / 2) 0xA001

-- `for _ in range(n)`
crc_bits : ℕ → ℕ → ℕ
unfolding crc_bit
crc_bits zero crc = crc
crc_bits (suc n) crc = crc_bits n (crc_bit crc)

crc_loop : ℕ → List ℕ → ℕ
unfolding crc_bits
crc_loop crc [] = crc
crc_loop crc (byte ∷ rest) = crc_loop (crc_bits 8 (bit_xor crc byte)) rest

unfoldable pub crc16_modbus : List ℕ → ℕ
unfolding crc_loop
crc16_modbus = crc_loop 0xFFFF

-- The check value of the CRC-16/MODBUS catalogue, for "123456789".
check_value :
    crc16_modbus (0x31 ∷ 0x32 ∷ 0x33 ∷ 0x34 ∷ 0x35 ∷ 0x36 ∷ 0x37 ∷ 0x38 ∷ 0x39 ∷ []) ≡ 0x4B37
unfolding crc16_modbus
check_value = refl

crc_bit-lt : (crc : ℕ) → crc < 65536 → crc_bit crc < 65536
unfolding crc_bit
crc_bit-lt crc h = ground (arith, bit_xor-lt 16 (crc / 2) 0xA001)

crc_bits-lt : (n crc : ℕ) → crc < 65536 → crc_bits n crc < 65536
unfolding crc_bits
crc_bits-lt zero crc h = h
crc_bits-lt (suc n) crc h = crc_bits-lt n (crc_bit crc) (crc_bit-lt crc h)

abbrev pub AreBytes : List ℕ → Type 0
AreBytes [] = Unit
AreBytes (b ∷ bs) = (b < 256) × AreBytes bs

crc_loop-lt : (crc : ℕ) (bytes : List ℕ) → AreBytes bytes → crc < 65536 → crc_loop crc bytes < 65536
unfolding crc_loop
crc_loop-lt crc [] v h = h
crc_loop-lt crc (b ∷ bytes) v h =
    crc_loop-lt (crc_bits 8 (bit_xor crc b)) bytes v.1
      (crc_bits-lt 8 (bit_xor crc b) (bit_xor-lt 16 crc b h (omega (arith, v.0))))

-- The checksum of bytes is a 16-bit word.
pub crc16_modbus-lt : (bytes : List ℕ) → AreBytes bytes → crc16_modbus bytes < 65536
unfolding crc16_modbus
crc16_modbus-lt bytes v = crc_loop-lt 0xFFFF bytes v (omega arith)
