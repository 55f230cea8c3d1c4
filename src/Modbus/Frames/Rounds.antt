-- ===== src/Modbus/Frames/Rounds.antt =====
-- One round of the loop: what it consumes, and that bytes which arrive later do not change it.
use zhiwei_backend.Prelude.{
  ℕ, ◌+◌, ◌<◌, ◌≡◌, ◌≢◌, ◌++◌, arith, length, get_or, length-append, length-drop, take-append_le,
  drop-append_le, get_or-append_lt,
}
use zhiwei_backend.Modbus.Frames.{Bytes, Cut, stop, resync, accept, cut_frame, cut}

-- The outcome of a round when `more` stands behind the bytes it saw.
abbrev pub feed : Bytes → Cut → Cut
feed more stop = stop
feed more (resync rest) = resync (rest ++ more)
feed more (accept frame rest) = accept frame (rest ++ more)

pub cut_frame-append :
    (n : ℕ) (rest more : Bytes)
    → 0 < n
    → cut_frame n rest ≢ stop
    → cut_frame n (rest ++ more) ≡ feed more (cut_frame n rest)
unfolding cut_frame
cut_frame-append n rest more pos h = ground (
  arith,
  length-append rest more,
  take-append_le n rest more,
  drop-append_le n rest more,
  drop-append_le 1 rest more,
)

pub cut-append : (rest more : Bytes) → cut rest ≢ stop → cut (rest ++ more) ≡ feed more (cut rest)
unfolding cut cut_frame
cut-append rest more h = ground (
  arith,
  length-append rest more,
  get_or-append_lt rest more 1 0,
  get_or-append_lt rest more 2 0,
  drop-append_le 1 rest more,
  cut_frame-append 5 rest more,
  cut_frame-append (3 + get_or rest 2 0 + 2) rest more,
)

-- A round that goes on leaves fewer bytes.
abbrev pub Shrinks : ℕ → Cut → Type 0
Shrinks n stop = Unit
Shrinks n (resync rest) = length rest < n
Shrinks n (accept frame rest) = length rest < n

pub cut-Shrinks : (rest : Bytes) → Shrinks (length rest) (cut rest)
unfolding cut cut_frame
cut-Shrinks rest =
    ground
      (arith, length-drop 1 rest, length-drop 5 rest, length-drop (3 + get_or rest 2 0 + 2) rest)
