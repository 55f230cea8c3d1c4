-- ===== src/Modbus/Decoders/Signed.antt =====
-- The signed decoders undo the two's complement of a device's integers.
use zhiwei_backend.Prelude.{ℕ, ◌-◌, ◌/◌, ◌%◌, ◌<◌, ◌≡◌, ap, ◌∙◌, arith}
use zhiwei_backend.Prelude.Bits.{bit_or-word_left}
use zhiwei_backend.Prelude.Int.{ℤ, pos, negsuc}
use zhiwei_backend.Modbus.Decoders.{signed16, signed32, join16}

-- The word that stands for an integer in two's complement of modulus `m`.
abbrev pub twos : ℕ → ℤ → ℕ
twos m (pos n) = n
twos m (negsuc n) = m - 1 - n

-- The integers of a two's complement of which half the words, `h`, are negative.
abbrev pub Fits : ℕ → ℤ → Type 0
Fits h (pos n) = n < h
Fits h (negsuc n) = n < h

-- An int16 comes back from the register that holds it.
pub signed16-twos : (x : ℤ) → Fits 0x8000 x → signed16 (twos 0x10000 x) ≡ x
unfolding signed16
signed16-twos (pos n) h = ground arith
signed16-twos (negsuc n) h = ground arith

signed32-twos : (x : ℤ) → Fits 0x80000000 x → signed32 (twos 0x100000000 x) ≡ x
unfolding signed32
signed32-twos (pos n) h = ground arith
signed32-twos (negsuc n) h = ground arith

pub join16-split : (w : ℕ) → join16 (w / 0x10000) (w % 0x10000) ≡ w
unfolding join16
join16-split w = omega (arith, bit_or-word_left (w / 0x10000) (w % 0x10000) (omega arith))

-- A number that fits an int32 comes back from the two registers that hold it, the high word first.
pub signed32-join16 :
    (x : ℤ)
    → Fits 0x80000000 x
    → let w = twos 0x100000000 x in signed32 (join16 (w / 0x10000) (w % 0x10000)) ≡ x
signed32-join16 x h = ap signed32 (join16-split (twos 0x100000000 x)) ∙ signed32-twos x h
