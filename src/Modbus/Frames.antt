-- ===== src/Modbus/Frames.antt =====
-- `split_rtu_frames` of app/plugins/protocols/modbus_rtu_tcp.py: cutting a byte stream into frames.
pub mod Rounds
pub mod Splitting
pub mod Stream
pub mod Tiling
use zhiwei_backend.Prelude.{
  ℕ, zero, suc, ◌+◌, ◌-◌, ◌*◌, Bool, true, false, List, [], ◌∷◌, ◌++◌, bit_and, bit_or, ◌==◌, ltb,
  if◌then◌else◌, length, get_or, take, drop,
}
use zhiwei_backend.Modbus.Crc.{crc16_modbus}

abbrev pub Bytes : Type 0
Bytes = List ℕ

abbrev pub read_holding : ℕ
read_holding = 0x03

-- What one round of the loop does with `rest`.
pub data Cut : Type 0 where
  stop : Cut
  resync : Bytes → Cut
  accept : Bytes → Bytes → Cut

-- `frame[-2] | (frame[-1] << 8)`
unfoldable pub frame_crc : Bytes → ℕ
frame_crc frame =
    bit_or (get_or frame (length frame - 2) 0) (get_or frame (length frame - 1) 0 * 256)

-- `crc16_modbus(frame[:-2]) == …`; the checksum stays shut in the proofs.
unfoldable pub crc_matches : Bytes → Bool
unfolding frame_crc
crc_matches frame = crc16_modbus (take (length frame - 2) frame) == frame_crc frame

-- The part of a round after the frame's length is known.
unfoldable pub cut_frame : ℕ → Bytes → Cut
cut_frame frame_len rest =
    if ltb (length rest) frame_len
    then stop
    else if crc_matches (take frame_len rest)
    then accept (take frame_len rest) (drop frame_len rest)
    else resync (drop 1 rest)

-- One round of `while len(rest) >= 5`.
unfoldable pub cut : Bytes → Cut
cut rest =
    if ltb (length rest) 5
    then stop
    else if bit_and (get_or rest 1 0) 0x80 == 0
    then (if get_or rest 1 0 == read_holding
        then cut_frame (3 + get_or rest 2 0 + 2) rest
        else resync (drop 1 rest))
    else cut_frame 5 rest

-- The loop, over the number of rounds that it may still make.
unfoldable pub split_loop : ℕ → List Bytes → Bytes → List Bytes × Bytes
split_loop zero frames rest = (frames, rest)
split_loop (suc fuel) frames rest = elim (cut rest) [
  | stop ↦ (frames, rest)
  | resync rest' ↦ split_loop fuel frames rest'
  | accept frame rest' ↦ split_loop fuel (frames ++ frame ∷ []) rest'
]

-- Each round but the last shortens `rest`, so its length bounds the rounds.
unfoldable pub split_rtu_frames : Bytes → List Bytes × Bytes
unfolding split_loop cut cut_frame crc_matches crc16_modbus
split_rtu_frames buf = split_loop (length buf) [] buf
