-- ===== src/Dtu/Chunks.antt =====
-- How much of a connection's stream is read.
use zhiwei_backend.Prelude.{
  Done, ℕ, ◌≡◌, refl, List, [], ◌∷◌, ◌++◌, Result, ok, err, Exception, continue,
}
use zhiwei_backend.Prelude.Floats.{Floats}
use zhiwei_backend.Modbus.Frames.{Bytes, split_rtu_frames}
use zhiwei_backend.Modbus.RtuAdapter.{RtuAdapter}
use zhiwei_backend.Dtu.Connection.{
  Buffer, Connection, enqueue_frames, serve, handle_conn, log_exception,
}

module _ (floats : Floats) where
  open floats use {Float}

  -- The rest of a connection after its first chunk.
  abbrev finish :
      RtuAdapter Float
      → (ℕ → ℕ)
      → List Bytes
      → Bytes
      → Result Done × Connection Float
      → Connection Float
  finish adapter now chunks rest (r, s) =
      let (r', s') = continue r (λ _. serve floats adapter now chunks (Buffer.bytes rest)) s in
      log_exception r' s'

  second_chunk :
      (adapter : RtuAdapter Float) (now : ℕ → ℕ) (c : ℕ) (next : Bytes) (chunks : List Bytes)
      (rest : Bytes) (first : Result Done × Connection Float)
      → ((finish adapter now ((c ∷ next) ∷ chunks) rest first).queue
          ≡ (finish adapter now [] rest first).queue)
        × (first.0 ≡ ok tt
            → (finish adapter now ((c ∷ next) ∷ chunks) rest first).logged
              ≡ first.1.logged ++ Exception.attribute_error ∷ [])
  unfolding serve
  second_chunk adapter now c next chunks rest (ok _, s) = (refl, λ e. refl)
  second_chunk adapter now c next chunks rest (err x, s) = (refl, λ e. cc)

  -- The second chunk of a connection always fails: after the first one `buffer` is the `bytes` that
  -- `split_rtu_frames` returns, which have no `extend`. Whatever the chunks are, the connection puts on
  -- the queue what the first chunk alone does, and if this raised nothing an `AttributeError` is logged
  -- and the rest of the stream is lost.
  pub handle_conn_second :
      (adapter : RtuAdapter Float) (now : ℕ → ℕ) (b c : ℕ) (chunk next : Bytes)
      (chunks : List Bytes) (s : Connection Float)
      → let first = enqueue_frames floats adapter now (split_rtu_frames (b ∷ chunk)).0 s in
        let whole = handle_conn floats adapter now ((b ∷ chunk) ∷ (c ∷ next) ∷ chunks) s in
        (whole.queue ≡ (handle_conn floats adapter now ((b ∷ chunk) ∷ []) s).queue)
        × (first.0 ≡ ok tt → whole.logged ≡ first.1.logged ++ Exception.attribute_error ∷ [])
  unfolding handle_conn serve
  handle_conn_second adapter now b c chunk next chunks s =
      second_chunk adapter now c next chunks (split_rtu_frames (b ∷ chunk)).1
        (enqueue_frames floats adapter now (split_rtu_frames (b ∷ chunk)).0 s)
