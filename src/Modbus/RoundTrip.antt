-- ===== src/Modbus/RoundTrip.antt =====
-- Responses as a slave sends them: they pass the splitter, and their registers come back.
use zhiwei_backend.Prelude.{
  ℕ, ◌+◌, ◌-◌, ◌*◌, ◌/◌, ◌%◌, ◌<◌, ◌≡◌, refl, sym, ap, ◌∙◌, true, List, [], ◌∷◌, ◌++◌, map, inl,
  arith, length, get_or, take, drop, length-append, bit_or, ==_iff,
}
use native.Mathlib.Nat.{zero-add, suc-add}
use zhiwei_backend.Prelude.Bits.{bit_or-byte_left, bit_or-byte_right}
use zhiwei_backend.Modbus.Crc.{crc16_modbus, crc16_modbus-lt, AreBytes}
use zhiwei_backend.Modbus.Frames.{Bytes, read_holding, frame_crc, crc_matches, split_rtu_frames}
use zhiwei_backend.Modbus.Frames.Stream.{IsFrame, stream, All, split_rtu_frames-stream, take_all}
use zhiwei_backend.Modbus.RtuAdapter.{to_registers}

abbrev pub register_bytes : List ℕ → Bytes
register_bytes [] = []
register_bytes (r ∷ regs) = r / 0x100 ∷ r % 0x100 ∷ register_bytes regs

abbrev pub body : ℕ → List ℕ → Bytes
body slave regs = slave ∷ read_holding ∷ length (register_bytes regs) ∷ register_bytes regs

-- The frame of a read response: the registers big-endian, the checksum with its low byte first.
unfoldable pub response : ℕ → List ℕ → Bytes
response slave regs =
    let crc = crc16_modbus (body slave regs) in body slave regs ++ crc % 0x100 ∷ crc / 0x100 ∷ []

abbrev pub AreWords : List ℕ → Type 0
AreWords [] = Unit
AreWords (r ∷ regs) = (r < 65536) × AreWords regs

-- A slave address and registers that a response can hold.
pub record IsAnswer (slave : ℕ) (regs : List ℕ) : Type 0 where
  pub address : slave < 256
  pub few : length regs < 128
  pub words : AreWords regs

length-register_bytes : (regs : List ℕ) → length (register_bytes regs) ≡ 2 * length regs
length-register_bytes [] = refl
length-register_bytes (r ∷ regs) = omega (arith, length-register_bytes regs)

register_bytes-AreBytes : (regs : List ℕ) → AreWords regs → AreBytes (register_bytes regs)
register_bytes-AreBytes [] w = tt
register_bytes-AreBytes (r ∷ regs) w =
    let v = w.0 in (omega arith, (omega arith, register_bytes-AreBytes regs w.1))

get_or-append_length : (xs ys : Bytes) (i : ℕ) → get_or (xs ++ ys) (length xs + i) 0 ≡ get_or ys i 0
get_or-append_length [] ys i = simp zero-add
get_or-append_length (x ∷ xs) ys i = simp suc-add (get_or-append_length xs ys i)

-- The two bytes at the end of a list.
last_bytes :
    (xs : Bytes) (a b : ℕ)
    → let ys = xs ++ a ∷ b ∷ [] in
      (length ys ≡ length xs + 2)
      × (take (length ys - 2) ys ≡ xs)
      × (get_or ys (length ys - 2) 0 ≡ a)
      × (get_or ys (length ys - 1) 0 ≡ b)
last_bytes xs a b =
    let ys = a ∷ b ∷ [] in
    let l : length (xs ++ ys) ≡ length xs + 2 = length-append xs ys in
    let two : length (xs ++ ys) - 2 ≡ length xs + 0 = omega arith in
    let one : length (xs ++ ys) - 1 ≡ length xs + 1 = omega arith in
    (
      l,
      rw two (take_all xs ys (length xs + 0) (omega arith)).0,
      rw two (get_or-append_length xs ys 0),
      rw one (get_or-append_length xs ys 1),
    )

checksum_read :
    (crc : ℕ)
    → crc < 65536
    → (frame : Bytes) → get_or frame (length frame - 2) 0 ≡ crc % 0x100
    → get_or frame (length frame - 1) 0 ≡ crc / 0x100
    → frame_crc frame ≡ crc
unfolding frame_crc
checksum_read crc h frame lo hi =
    rw (lo, hi) (omega (arith, bit_or-byte_right (crc / 0x100) (crc % 0x100) (omega arith)))

-- A checksum that is appended low byte first is the one that is read.
crc_matches-append :
    (xs : Bytes)
    → AreBytes xs
    → crc_matches (xs ++ crc16_modbus xs % 0x100 ∷ crc16_modbus xs / 0x100 ∷ []) ≡ true
unfolding crc_matches
crc_matches-append xs v =
    let crc = crc16_modbus xs in
    let t = last_bytes xs (crc % 0x100) (crc / 0x100) in
    (==_iff _ _).1 (
      ap crc16_modbus t.1
      ∙ sym
          (checksum_read crc (crc16_modbus-lt xs v) (xs ++ crc % 0x100 ∷ crc / 0x100 ∷ []) t.2 t.3))

pub response-IsFrame :
    (slave : ℕ) (regs : List ℕ) → IsAnswer slave regs → IsFrame (response slave regs)
response-IsFrame slave regs v =
    let n = length-register_bytes regs in
    let few = v.few in
    let bytes : AreBytes (body slave regs) =
      (v.address, (omega arith, (omega arith, register_bytes-AreBytes regs v.words))) in
    record {
      checksum = unfold response in crc_matches-append (body slave regs) bytes;
      shape = inl (
          unfold response in
          (
            refl,
            refl,
            omega (
              arith,
              length-append (register_bytes regs) (
                  crc16_modbus (body slave regs) % 0x100
                  ∷ crc16_modbus (body slave regs) / 0x100
                  ∷ []),
            ),
          ));
    }

join_bytes : (r : ℕ) → r < 65536 → bit_or (r / 0x100 * 0x100) (r % 0x100) ≡ r
join_bytes r h = omega (arith, bit_or-byte_left (r / 0x100) (r % 0x100) (omega arith))

-- The registers of a response come back from its bytes.
pub to_registers-register_bytes :
    (regs : List ℕ) → AreWords regs → to_registers (register_bytes regs) ≡ regs
unfolding to_registers
to_registers-register_bytes [] w = refl
to_registers-register_bytes (r ∷ regs) w =
    cc (to_registers-register_bytes regs w.1, join_bytes r w.0)

abbrev pub AllAnswers : ℕ → List (List ℕ) → Type 0
AllAnswers slave [] = Unit
AllAnswers slave (regs ∷ answers) = IsAnswer slave regs × AllAnswers slave answers

answers-IsFrame :
    (slave : ℕ) (answers : List (List ℕ))
    → AllAnswers slave answers
    → All IsFrame (map (response slave) answers)
answers-IsFrame slave [] v = tt
answers-IsFrame slave (regs ∷ answers) v =
    (response-IsFrame slave regs v.0, answers-IsFrame slave answers v.1)

-- Responses that satisfy `AllAnswers`, sent back to back, come out of the splitter frame by frame,
-- whatever follows them.
pub split-responses :
    (slave : ℕ) (answers : List (List ℕ)) (tail : Bytes)
    → AllAnswers slave answers
    → split_rtu_frames (stream (map (response slave) answers) tail)
      ≡ (let (gs, r) = split_rtu_frames tail in (map (response slave) answers ++ gs, r))
split-responses slave answers tail v =
    split_rtu_frames-stream (map (response slave) answers) tail (answers-IsFrame slave answers v)

-- The registers that `_decode_frame` sees in a response are the ones that the slave sent.
pub to_registers-response :
    (slave : ℕ) (regs : List ℕ)
    → IsAnswer slave regs
    → to_registers (take (get_or (response slave regs) 2 0) (drop 3 (response slave regs))) ≡ regs
unfolding response
to_registers-response slave regs v =
    let crc = crc16_modbus (body slave regs) in
    let t =
      take_all (register_bytes regs) (crc % 0x100 ∷ crc / 0x100 ∷ []) (length (register_bytes regs))
        refl in
    rw t.0 (to_registers-register_bytes regs v.words)
