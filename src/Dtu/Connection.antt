-- ===== src/Dtu/Connection.antt =====
-- `_to_reading_in` and `TcpServerManager._handle_conn` of app/dtus/server.py. What the reader gives, one
-- chunk after the other, is an argument; the queue is the list of what was put on it, and what
-- `except Exception` logs is the state's `logged`, and `now k` is the clock when frame k is decoded.
use zhiwei_backend.Prelude.{
  Done, ℕ, suc, Bool, ◌&&◌, List, [], ◌∷◌, ◌++◌, String, str_eq, leb, if◌then◌else◌, Action,
  Exception, Result, ok, err, pure, lift, gets, modify, length, ◌>>=◌, ◌>>◌, ◌||◌,
}
use zhiwei_backend.Prelude.Floats.{Floats}
use zhiwei_backend.Prelude.Texts.{codes}
use zhiwei_backend.Modbus.Frames.{Bytes, split_rtu_frames}
use zhiwei_backend.Modbus.RtuAdapter.{RawReading, RtuAdapter, decode_frame}
use zhiwei_backend.Ingest.Service.{ReadingIn}

-- The two types that the variable `buffer` has in turn.
pub data Buffer : Type 0 where
  bytearray bytes : Bytes → Buffer

-- `buffer.extend(chunk)`, which `bytes` does not have
abbrev pub extend : Buffer → Bytes → Result Bytes
extend (bytearray b) chunk = ok (b ++ chunk)
extend (bytes b) chunk = err Exception.attribute_error

pub record Connection (Float : Type 0) : Type 0 where
  pub queue : List (ReadingIn Float)
  pub logged : List Exception
  pub decoded : ℕ

-- `Quality(r.quality)`, and GOOD for a `ValueError`
abbrev pub quality_of : String → String
quality_of q = if str_eq q "good" || (str_eq q "bad" || str_eq q "uncertain") then q else "good"

-- the lengths that `ReadingIn` declares for a code
abbrev pub is_code : String → Bool
is_code s = leb 1 (length (codes s)) && leb (length (codes s)) 64

module _ {Float : Type 0} where
  -- pydantic's `ValidationError` is a `ValueError`
  unfoldable pub to_reading_in : RawReading Float → Result (ReadingIn Float)
  to_reading_in r =
      if is_code r.device_code && is_code r.channel_code
      then ok (record {
        device_code = r.device_code;
        channel_code = r.channel_code;
        timestamp = r.timestamp;
        value = r.value;
        unit = r.unit;
        quality = quality_of r.quality;
      })
      else err Exception.value_error

  abbrev pub put_nowait : ReadingIn Float → Action (Connection Float) Done
  put_nowait r = modify (λ s. record s { queue = s.queue ++ r ∷ [] })

  -- the loop over the readings of a frame
  unfoldable pub enqueue : List (RawReading Float) → Action (Connection Float) Done
  enqueue [] = pure tt
  enqueue (r ∷ readings) = do item ← lift (to_reading_in r); put_nowait item; enqueue readings

  -- `except Exception`
  abbrev pub log_exception : Result Done → Connection Float → Connection Float
  log_exception (ok _) s = s
  log_exception (err e) s = record s { logged = s.logged ++ e ∷ [] }

module _ (floats : Floats) where
  open floats use {Float}

  -- the loop over the frames of a chunk
  unfoldable pub enqueue_frames :
      RtuAdapter Float → (ℕ → ℕ) → List Bytes → Action (Connection Float) Done
  enqueue_frames adapter now [] = pure tt
  enqueue_frames adapter now (frame ∷ frames) = do
    k ← gets (λ s. s.decoded)
    modify (λ s. record s { decoded = suc k })
    readings ← lift (decode_frame floats adapter (now k) frame)
    enqueue readings
    enqueue_frames adapter now frames

  -- the loop over the chunks; an empty chunk is the end of the stream
  unfoldable pub serve :
      RtuAdapter Float → (ℕ → ℕ) → List Bytes → Buffer → Action (Connection Float) Done
  serve adapter now [] buffer = pure tt
  serve adapter now ([] ∷ chunks) buffer = pure tt
  serve adapter now ((b ∷ chunk) ∷ chunks) buffer = do
    buf ← lift (extend buffer (b ∷ chunk))
    let split = split_rtu_frames buf
    enqueue_frames adapter now split.0
    serve adapter now chunks (Buffer.bytes split.1)

  unfoldable pub handle_conn :
      RtuAdapter Float → (ℕ → ℕ) → List Bytes → Connection Float → Connection Float
  handle_conn adapter now chunks s =
      let (r, s') = serve adapter now chunks (Buffer.bytearray []) s in log_exception r s'
