-- ===== src/Modbus/Frames/Tiling.antt =====
-- Where the frames of a buffer come from.
use zhiwei_backend.Prelude.{
  ℕ, zero, suc, ◌+◌, ◌≤◌, ◌≡◌, inl, inr, List, [], ◌∷◌, ◌++◌, arith, length, get_or,
  take-append-drop, length-take_le, get_or-take_lt,
}
use mathlib.Core.Path.{subst}
use zhiwei_backend.Modbus.Frames.{Bytes, resync, accept, cut_frame, cut, split_rtu_frames}
use zhiwei_backend.Modbus.Frames.Splitting.{Cut-cases, cut_nil, resync_shrinks, accept_shrinks}
use zhiwei_backend.Modbus.Frames.Stream.{
  IsFrame, split_rtu_frames_stop, split_rtu_frames-accept, split_rtu_frames_resync,
}

-- `buf` is cut in order into the frames, single bytes that are dropped, and the remainder.
pub data Tiles : Bytes → List Bytes → Bytes → Type 0 where
  remainder : (rest : Bytes) → Tiles rest [] rest
  dropped :
      (b : ℕ) {buf : Bytes} {fs : List Bytes} {rest : Bytes}
      → Tiles buf fs rest
      → Tiles (b ∷ buf) fs rest
  framed :
      (f : Bytes) {buf : Bytes} {fs : List Bytes} {rest : Bytes}
      → IsFrame f
      → Tiles buf fs rest
      → Tiles (f ++ buf) (f ∷ fs) rest

resync_drops : (buf : Bytes) {r : Bytes} → cut buf ≡ resync r → get_or buf 0 0 ∷ r ≡ buf
unfolding cut cut_frame
resync_drops [] e = cc
resync_drops (b ∷ buf) e = ground arith

accept_takes : (buf : Bytes) {f r : Bytes} → cut buf ≡ accept f r → f ++ r ≡ buf
unfolding cut cut_frame
accept_takes buf e =
    ground (arith, take-append-drop 5 buf, take-append-drop (3 + get_or buf 2 0 + 2) buf)

accept-IsFrame : (buf : Bytes) {f r : Bytes} → cut buf ≡ accept f r → IsFrame f
unfolding cut cut_frame
accept-IsFrame buf e = ground (
  arith,
  length-take_le 5 buf,
  length-take_le (3 + get_or buf 2 0 + 2) buf,
  get_or-take_lt 5 buf 1 0,
  get_or-take_lt (3 + get_or buf 2 0 + 2) buf 1 0,
  get_or-take_lt (3 + get_or buf 2 0 + 2) buf 2 0,
)

abbrev IsTiled : Bytes → List Bytes × Bytes → Type 0
IsTiled buf (fs, rest) = Tiles buf fs rest

tiles : (n : ℕ) (buf : Bytes) → length buf ≤ n → IsTiled buf (split_rtu_frames buf)
tiles zero [] h = rw (split_rtu_frames_stop [] cut_nil) (remainder [])
tiles zero (b ∷ buf) h = absurd (omega arith)
tiles (suc n) buf h = elim (Cut-cases (cut buf)) [
  | inl e ↦ rw (split_rtu_frames_stop buf e) (remainder buf)
  | inr (inl (r, e)) ↦ rw (split_rtu_frames_resync buf e) (
      subst (λ (z : Bytes). IsTiled z (split_rtu_frames r)) (resync_drops buf e)
        (dropped (get_or buf 0 0) (tiles n r (omega (arith, resync_shrinks buf e)))))
  | inr (inr (f, r, e)) ↦ rw (split_rtu_frames-accept buf e) (
      subst (λ (z : Bytes). Tiles z (f ∷ (split_rtu_frames r).0) (split_rtu_frames r).1)
        (accept_takes buf e)
        (framed f (accept-IsFrame buf e) (tiles n r (omega (arith, accept_shrinks buf e)))))
]

-- The frames found are pieces of the buffer in order, each a complete response whose checksum fits,
-- and between them only single bytes are dropped; the remainder is the end of the buffer.
pub split_rtu_frames-Tiles :
    (buf : Bytes) → Tiles buf (split_rtu_frames buf).0 (split_rtu_frames buf).1
split_rtu_frames-Tiles buf = tiles (length buf) buf (omega arith)
