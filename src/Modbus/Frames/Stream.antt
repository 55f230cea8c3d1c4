-- ===== src/Modbus/Frames/Stream.antt =====
-- What `split_rtu_frames` promises of a byte stream.
use zhiwei_backend.Prelude.{
  ℕ, zero, suc, ◌+◌, ◌<◌, ◌≡◌, ◌≢◌, ◌⊎◌, refl, ap, ◌∙◌, true, List, [], ◌∷◌, ◌++◌, arith, length,
  get_or, take, drop, length-append, bit_and, get_or-append_lt,
}
use zhiwei_backend.Modbus.Frames.{
  Bytes, stop, resync, accept, cut_frame, cut, crc_matches, read_holding, split_loop,
  split_rtu_frames,
}
use zhiwei_backend.Modbus.Frames.Splitting.{
  split_loop-settles, split_loop_stop, split_loop-append, split_loop-frames, split_loop-fuel,
  split_loop-accept, split_loop_resync, split_loop-length, accept_shrinks, resync_shrinks,
}

-- Too short for any frame, or the beginning of a read response whose rest has not come yet.
abbrev pub IsHalfFrame : Bytes → Type 0
IsHalfFrame rest =
    (length rest < 5) ⊎ ((get_or rest 1 0 ≡ read_holding) × (length rest < 5 + get_or rest 2 0))

stop-IsHalfFrame : (rest : Bytes) → cut rest ≡ stop → IsHalfFrame rest
unfolding cut cut_frame
stop-IsHalfFrame rest e = ground arith

-- The loop ends, and what it leaves in the buffer is a half frame.
pub split_rtu_frames-IsHalfFrame : (buf : Bytes) → IsHalfFrame (split_rtu_frames buf).1
split_rtu_frames-IsHalfFrame buf =
    stop-IsHalfFrame (split_rtu_frames buf).1
      (unfold split_rtu_frames in split_loop-settles (length buf) [] buf (omega arith))

-- Frames found in a stream do not depend on how it arrives: to split the first part, and then the
-- remainder with the second part behind it, is to split the whole.
pub split_rtu_frames-append :
    (a b : Bytes)
    → split_rtu_frames (a ++ b) ≡ (
        let (fs, r) = split_rtu_frames a in
        let (gs, r') = split_rtu_frames (r ++ b) in (fs ++ gs, r'))
unfolding split_rtu_frames
split_rtu_frames-append a b =
    let fs = (split_loop (length a) [] a).0 in
    let r = (split_loop (length a) [] a).1 in
    let l = length-append a b in
    let l' = length-append r b in
    let k = split_loop-length (length a) [] a in
    split_loop-append (length a) [] a b (omega arith) (length (a ++ b)) (omega arith)
    ∙ split_loop-fuel (length (a ++ b)) (length (r ++ b)) fs (r ++ b) (omega arith) (omega arith)
    ∙ split_loop-frames (length (r ++ b)) fs (r ++ b)

-- A complete response: a read of holding registers or an exception, with a checksum that fits.
pub record IsFrame (frame : Bytes) : Type 0 where
  pub checksum : crc_matches frame ≡ true
  pub shape :
      ((bit_and (get_or frame 1 0) 0x80 ≡ 0)
        × (get_or frame 1 0 ≡ read_holding)
        × (length frame ≡ 5 + get_or frame 2 0))
      ⊎ ((bit_and (get_or frame 1 0) 0x80 ≢ 0) × (length frame ≡ 5))

pub take_all :
    (xs ys : Bytes) (n : ℕ) → length xs ≡ n → (take n (xs ++ ys) ≡ xs) × (drop n (xs ++ ys) ≡ ys)
take_all [] ys zero e = (refl, refl)
take_all [] ys (suc n) e = absurd (omega arith)
take_all (x ∷ xs) ys zero e = absurd (omega arith)
take_all (x ∷ xs) ys (suc n) e =
    let t = take_all xs ys n (omega arith) in (ap (λ (z : Bytes). x ∷ z) t.0, t.1)

cut-IsFrame : (frame more : Bytes) → IsFrame frame → cut (frame ++ more) ≡ accept frame more
unfolding cut cut_frame
cut-IsFrame frame more v = ground (
  arith,
  length-append frame more,
  get_or-append_lt frame more 1 0,
  get_or-append_lt frame more 2 0,
  take_all frame more 5,
  take_all frame more (3 + get_or frame 2 0 + 2),
)

pub split_rtu_frames-accept :
    (buf : Bytes) {f r : Bytes}
    → cut buf ≡ accept f r
    → split_rtu_frames buf ≡ (let (gs, rest) = split_rtu_frames r in (f ∷ gs, rest))
unfolding split_rtu_frames
split_rtu_frames-accept buf {f} {r} e =
    let s = accept_shrinks buf e in
    split_loop-accept (length buf) [] buf (omega arith) e
    ∙ split_loop-fuel (length buf) (length r) (f ∷ []) r (omega arith) (omega arith)
    ∙ split_loop-frames (length r) (f ∷ []) r

pub split_rtu_frames_stop : (buf : Bytes) → cut buf ≡ stop → split_rtu_frames buf ≡ ([], buf)
unfolding split_rtu_frames
split_rtu_frames_stop buf e = split_loop_stop (length buf) [] buf e

pub split_rtu_frames_resync :
    (buf : Bytes) {r : Bytes} → cut buf ≡ resync r → split_rtu_frames buf ≡ split_rtu_frames r
unfolding split_rtu_frames
split_rtu_frames_resync buf {r} e =
    let s = resync_shrinks buf e in
    split_loop_resync (length buf) [] buf (omega arith) e
    ∙ split_loop-fuel (length buf) (length r) [] r (omega arith) (omega arith)

-- the stream of some frames and what follows them
abbrev pub stream : List Bytes → Bytes → Bytes
stream [] tail = tail
stream (f ∷ fs) tail = f ++ stream fs tail

abbrev pub All : (Bytes → Type 0) → List Bytes → Type 0
All P [] = Unit
All P (f ∷ fs) = P f × All P fs

-- Frames sent back to back come out as they went in, whatever follows them.
pub split_rtu_frames-stream :
    (fs : List Bytes) (tail : Bytes)
    → All IsFrame fs
    → split_rtu_frames (stream fs tail) ≡ (let (gs, r) = split_rtu_frames tail in (fs ++ gs, r))
split_rtu_frames-stream [] tail v = refl
split_rtu_frames-stream (f ∷ fs) tail v =
    split_rtu_frames-accept (f ++ stream fs tail) (cut-IsFrame f (stream fs tail) v.0)
    ∙ rw (split_rtu_frames-stream fs tail v.1)
