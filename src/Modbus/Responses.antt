-- ===== src/Modbus/Responses.antt =====
-- What the RTU adapter makes of frames: no exception where every entry can be read, nothing for
-- other slaves and for exception responses, and the registers that the slave sent.
use zhiwei_backend.Prelude.{
  ℕ, suc, ◌≤◌, ◌≡◌, ◌≢◌, refl, ap, List, [], ◌∷◌, ◌++◌, map, Option, none, some, arith, length,
  get_or, take, drop, Result, ok, bit_and, ltb, ◌==◌, ◌∙◌, ◌%◌, ◌/◌, length-append, length-take_le,
  length-drop, String, Option-cases, Bool-cases, append-nil, then_result, not, ◌||◌, inl, inr,
}
use zhiwei_backend.Prelude.Int.{pos}
use zhiwei_backend.Prelude.Floats.{Floats}
use zhiwei_backend.Modbus.Frames.{Bytes, read_holding}
use zhiwei_backend.Modbus.Frames.Stream.{stream, split_rtu_frames_stop}
use zhiwei_backend.Modbus.Frames.Splitting.{cut_nil}
use zhiwei_backend.Modbus.Crc.{crc16_modbus}
use zhiwei_backend.Modbus.Decoders.{DataType, register_count, decode}
use zhiwei_backend.Modbus.RtuAdapter.{
  RawReading, Register, RtuAdapter, data_type_of, scale_of, to_registers, window, decode_register,
  decode_registers, decode_frame, decode_frames, decode_stream, reading, cons_some,
}
use zhiwei_backend.Modbus.RoundTrip.{
  response, body, register_bytes, IsAnswer, AllAnswers, to_registers-response, split-responses,
}

long_response : (slave : ℕ) (regs : List ℕ) → 5 ≤ length (response slave regs)
unfolding response
long_response slave regs =
    let crc = crc16_modbus (body slave regs) in
    omega (arith, length-append (register_bytes regs) (crc % 0x100 ∷ crc / 0x100 ∷ []))

module _ (floats : Floats) where
  open floats use {Float, mul}

  -- An entry whose address is a natural number, whose type can be looked up, and whose factor is missing or
  -- a number.
  pub record IsReadable (reg : Register Float) : Type 0 where
    pub idx : ℕ
    pub address : reg.address ≡ some (ok (pos idx))
    pub kind : DataType
    pub dtype : data_type_of reg.dtype ≡ ok kind
    pub factor : Float
    pub scale : scale_of floats reg.scale ≡ ok factor

  abbrev pub AllReadable : List (Register Float) → Type 0
  AllReadable [] = Unit
  AllReadable (reg ∷ regs) = IsReadable reg × AllReadable regs

  decode_total :
      (t : DataType) (regs : List ℕ)
      → length regs ≡ register_count t
      → (v : Float) × (decode floats t regs ≡ ok v)
  unfolding decode
  decode_total DataType.uint16 (a ∷ regs) h = (_, refl)
  decode_total DataType.int16 (a ∷ regs) h = (_, refl)
  decode_total DataType.uint32 (a ∷ b ∷ regs) h = (_, refl)
  decode_total DataType.int32 (a ∷ b ∷ regs) h = (_, refl)
  decode_total DataType.float32 (a ∷ b ∷ regs) h = (_, refl)
  decode_total DataType.float64 (a ∷ b ∷ c ∷ d ∷ regs) h = (_, refl)
  decode_total _ _ h = absurd (omega arith)

  window-length :
      (n idx : ℕ) (registers regs : List ℕ)
      → window n (pos idx) registers ≡ some regs
      → length regs ≡ n
  unfolding window
  window-length n idx registers regs e =
      ground (arith, length-take_le n (drop idx registers), length-drop idx registers)

  decode_register_total :
      (device_code : String) (ts : ℕ) (registers : List ℕ) (reg : Register Float)
      → IsReadable reg
      → (r : Option (RawReading Float)) × (decode_register floats device_code ts registers reg
          ≡ ok r)
  unfolding decode_register
  decode_register_total device_code ts registers reg h =
      let n = register_count h.kind in
      elim (Option-cases (window n (pos h.idx) registers)) [
        | inl w ↦ (none, rw (h.address, h.dtype, w) refl)
        | inr (regs, w) ↦
            let (v, d) = decode_total h.kind regs (window-length n h.idx registers regs w) in
            (
              some (reading floats device_code reg ts (mul v h.factor)),
              rw (h.address, h.dtype, w, d, h.scale) refl,
            )
      ]

  decode_registers_total :
      (device_code : String) (ts : ℕ) (registers : List ℕ) (regs : List (Register Float))
      → AllReadable regs
      → (rs : List (RawReading Float)) × (decode_registers floats device_code ts registers regs
          ≡ ok rs)
  unfolding decode_registers
  decode_registers_total device_code ts registers [] h = ([], refl)
  decode_registers_total device_code ts registers (reg ∷ regs) h =
      let (r, e) = decode_register_total device_code ts registers reg h.0 in
      let (rs, es) = decode_registers_total device_code ts registers regs h.1 in
      (cons_some floats r rs, rw (e, es))

  -- Where every entry has an address that `int` makes a natural number of, a type that can be looked up, and a
  -- factor that is missing or that `float` takes, a frame of any content is decoded without an exception.
  pub decode_frame_total :
      (adapter : RtuAdapter Float) (ts : ℕ) (frame : Bytes)
      → AllReadable adapter.registers
      → (rs : List (RawReading Float)) × (decode_frame floats adapter ts frame ≡ ok rs)
  unfolding decode_frame
  decode_frame_total adapter ts frame h =
      let (rs, e) =
        decode_registers_total adapter.device_code ts
          (to_registers (take (get_or frame 2 0) (drop 3 frame))) adapter.registers h in
      elim (Bool-cases (ltb (length frame) 5 || not (get_or frame 0 0 == adapter.slave_id))) [
        | inl g ↦ ([], rw g)
        | inr g ↦ elim (Bool-cases (bit_and (get_or frame 1 0) 0x80 == 0)) [
          | inl g' ↦ elim (Bool-cases (get_or frame 1 0 == read_holding)) [
            | inl k ↦ (rs, rw (g, g', k) e)
            | inr k ↦ ([], rw (g, g', k))
          ]
          | inr g' ↦ ([], rw (g, g'))
        ]
      ]

  decode_frame_read :
      (adapter : RtuAdapter Float) (ts : ℕ) (frame : Bytes)
      → 5 ≤ length frame
      → get_or frame 0 0 ≡ adapter.slave_id
      → get_or frame 1 0 ≡ read_holding
      → decode_frame floats adapter ts frame
        ≡ decode_registers floats adapter.device_code ts
            (to_registers (take (get_or frame 2 0) (drop 3 frame)))
            adapter.registers
  unfolding decode_frame
  decode_frame_read adapter ts frame long slave func = rw func (ground arith)

  -- A response of the configured slave is decoded from the registers that were sent.
  pub decode_frame-response :
      (adapter : RtuAdapter Float) (ts : ℕ) (regs : List ℕ)
      → IsAnswer adapter.slave_id regs
      → decode_frame floats adapter ts (response adapter.slave_id regs)
        ≡ decode_registers floats adapter.device_code ts regs adapter.registers
  decode_frame-response adapter ts regs v =
      let r = response adapter.slave_id regs in
      decode_frame_read adapter ts r (long_response adapter.slave_id regs) (unfold response in refl)
        (unfold response in refl)
      ∙ ap (λ (rs : List ℕ). decode_registers floats adapter.device_code ts rs adapter.registers)
          (to_registers-response adapter.slave_id regs v)

  -- A response of another slave is ignored.
  pub decode_frame-other :
      (adapter : RtuAdapter Float) (ts : ℕ) (frame : Bytes)
      → get_or frame 0 0 ≢ adapter.slave_id
      → decode_frame floats adapter ts frame ≡ ok []
  unfolding decode_frame
  decode_frame-other adapter ts frame ne = ground arith

  -- The readings of a sequence of answers, each stamped by the clock at its frame.
  abbrev pub answer_readings :
      RtuAdapter Float → (ℕ → ℕ) → ℕ → List (List ℕ) → Result (List (RawReading Float))
  answer_readings adapter now k [] = ok []
  answer_readings adapter now k (regs ∷ answers) =
      then_result (decode_registers floats adapter.device_code (now k) regs adapter.registers)
        (λ readings.
          then_result (answer_readings adapter now (suc k) answers) (λ more. ok (readings ++ more)))

  decode_frames-responses :
      (adapter : RtuAdapter Float) (now : ℕ → ℕ) (k : ℕ) (answers : List (List ℕ))
      → AllAnswers adapter.slave_id answers
      → decode_frames floats adapter now k (map (response adapter.slave_id) answers)
        ≡ answer_readings adapter now k answers
  unfolding decode_frames
  decode_frames-responses adapter now k [] v = refl
  decode_frames-responses adapter now k (regs ∷ answers) v = rw (
    decode_frame-response adapter (now k) regs v.0,
    decode_frames-responses adapter now (suc k) answers v.1,
  )

  -- A stream of responses of the configured slave that satisfy `AllAnswers` yields the readings of the
  -- registers that were sent, in order.
  pub decode_stream-responses :
      (adapter : RtuAdapter Float) (now : ℕ → ℕ) (answers : List (List ℕ))
      → AllAnswers adapter.slave_id answers
      → decode_stream floats adapter now (stream (map (response adapter.slave_id) answers) [])
        ≡ answer_readings adapter now 0 answers
  unfolding decode_stream
  decode_stream-responses adapter now answers v =
      rw
        (
          split-responses adapter.slave_id answers [] v,
          split_rtu_frames_stop [] cut_nil,
          append-nil,
        )
        (decode_frames-responses adapter now 0 answers v)
