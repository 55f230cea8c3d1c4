-- ===== src/Modbus/Tests.antt =====
-- Runs of the receiver on the inputs of its unit tests, and the theorems at such inputs.
use zhiwei_backend.Prelude.{
  ℕ, ◌≡◌, ◌/◌, ◌%◌, false, refl, List, [], ◌∷◌, ◌++◌, map, some, none, arith, ok, err, Exception,
}
use zhiwei_backend.Prelude.Int.{ℤ, pos, negsuc}
use zhiwei_backend.Prelude.Floats.{Floats}
use zhiwei_backend.Modbus.Crc.{crc16_modbus}
use zhiwei_backend.Modbus.Frames.{split_rtu_frames}
use zhiwei_backend.Modbus.Frames.Stream.{
  stream, split_rtu_frames-IsHalfFrame, split_rtu_frames-append, IsHalfFrame,
}
use zhiwei_backend.Modbus.Frames.Tiling.{Tiles, split_rtu_frames-Tiles}
use zhiwei_backend.Modbus.Decoders.{signed32, join16, decode, data_type}
use zhiwei_backend.Modbus.Decoders.Signed.{twos, signed32-join16}
use zhiwei_backend.Modbus.RtuAdapter.{
  RtuAdapter, Register, RawReading, decode_stream, decode_frame, decode_register, window,
}
use zhiwei_backend.Modbus.RoundTrip.{response, split-responses}
use zhiwei_backend.Modbus.Responses.{
  decode_stream-responses, answer_readings, decode_frame_total, IsReadable,
}

-- Numbers in place of floats.
abbrev pub whole : Floats
whole = record {
  Float = ℤ;
  of_int = λ x. x;
  mul = λ x y. x;
  lt = λ x y. false;
  le = λ x y. false;
  eq = λ x y. false;
  unpack_f = λ b. pos 0;
  unpack_d = λ b. pos 0;
  show = λ x. "";
}

abbrev entry : Register ℤ
entry = record {
  address = some (ok (pos 0));
  dtype = some (ok "int16");
  channel_code = some "TEMP";
  scale = none;
  unit = none;
}

abbrev adapter : RtuAdapter ℤ
adapter = record { slave_id = 1; device_code = "GW-DTU-001"; registers = entry ∷ [] }

abbrev answers : List (List ℕ)
answers = (1 ∷ []) ∷ (0xFFFF ∷ 2 ∷ []) ∷ []

frame_of_one : response 1 (1 ∷ []) ≡ 1 ∷ 3 ∷ 2 ∷ 0 ∷ 1 ∷ 0x79 ∷ 0x84 ∷ []
unfolding response crc16_modbus
frame_of_one = refl

-- A corrupted frame is skipped byte by byte, and the next one is found.
resync_run :
    (split_rtu_frames (1 ∷ 3 ∷ 2 ∷ 0 ∷ 1 ∷ 0x79 ∷ 0 ∷ response 1 (1 ∷ []))).0
    ≡ response 1 (1 ∷ []) ∷ []
unfolding response split_rtu_frames
resync_run = refl

split-responses_example :
    split_rtu_frames (stream (map (response 1) answers) (1 ∷ 3 ∷ []))
    ≡ (let (gs, r) = split_rtu_frames (1 ∷ 3 ∷ []) in (map (response 1) answers ++ gs, r))
split-responses_example = split-responses 1 answers (1 ∷ 3 ∷ []) (omega arith)

split_rtu_frames-append_example : split_rtu_frames ((1 ∷ 3 ∷ []) ++ 2 ∷ 0 ∷ []) ≡ (
    let (fs, r) = split_rtu_frames (1 ∷ 3 ∷ []) in
    let (gs, r') = split_rtu_frames (r ++ 2 ∷ 0 ∷ []) in (fs ++ gs, r'))
split_rtu_frames-append_example = split_rtu_frames-append (1 ∷ 3 ∷ []) (2 ∷ 0 ∷ [])

split_rtu_frames-IsHalfFrame_example : IsHalfFrame (split_rtu_frames (1 ∷ 3 ∷ 9 ∷ [])).1
split_rtu_frames-IsHalfFrame_example = split_rtu_frames-IsHalfFrame (1 ∷ 3 ∷ 9 ∷ [])

split_rtu_frames-Tiles_example :
    let buf = 7 ∷ response 1 (1 ∷ []) in Tiles buf (split_rtu_frames buf).0 (split_rtu_frames buf).1
split_rtu_frames-Tiles_example = split_rtu_frames-Tiles (7 ∷ response 1 (1 ∷ []))

signed32-join16_example :
    let w = twos 0x100000000 (negsuc 4) in signed32 (join16 (w / 0x10000) (w % 0x10000)) ≡ negsuc 4
signed32-join16_example = signed32-join16 (negsuc 4) (omega arith)

decode_stream-responses_example :
    decode_stream whole adapter (λ k. k) (stream (map (response 1) answers) [])
    ≡ answer_readings whole adapter (λ k. k) 0 answers
decode_stream-responses_example =
    decode_stream-responses whole adapter (λ k. k) answers (omega arith)

-- The address -1 reads no register, and a factor that is no number raises.
before_first :
    decode_register whole "GW" 0 (7 ∷ []) (record entry { address = some (ok (negsuc 0)) })
    ≡ err Exception.index_error
unfolding decode_register window decode data_type
before_first = refl

no_factor :
    decode_register whole "GW" 0
      (7 ∷ [])
      (record entry { scale = some (err Exception.value_error) })
    ≡ err Exception.value_error
unfolding decode_register window decode data_type
no_factor = refl

entry-IsReadable : IsReadable whole entry
entry-IsReadable = record {
  idx = 0;
  address = refl;
  kind = data_type "int16";
  dtype = refl;
  factor = whole.of_int (pos 1);
  scale = refl;
}

decode_frame_total_example :
    (rs : List (RawReading ℤ)) × (decode_frame whole adapter 0 (response 1 []) ≡ ok rs)
decode_frame_total_example =
    decode_frame_total whole adapter 0 (response 1 []) (entry-IsReadable, tt)
