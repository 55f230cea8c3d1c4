-- ===== src/Dtu/Tests.antt =====
-- A connection that sends one answer in two chunks, and a consumer with batches of two.
use zhiwei_backend.Prelude.{
  ℕ, ◌≡◌, refl, true, false, [], ◌∷◌, ◌++◌, none, some, arith, ok, leb, ltb, ◌==◌, ◌*◌, Exception,
}
use zhiwei_backend.Prelude.Int.{pos}
use zhiwei_backend.Prelude.Floats.{Floats}
use zhiwei_backend.Modbus.Frames.{split_rtu_frames}
use zhiwei_backend.Modbus.RtuAdapter.{RtuAdapter, Register}
use zhiwei_backend.Dtu.Connection.{Connection, enqueue_frames, handle_conn}
use zhiwei_backend.Dtu.Chunks.{handle_conn_second}
use zhiwei_backend.Dtu.Consumer.{
  Consumer, Step, Reachable, IsOrdered, started, join, Reachable-IsOrdered, drained_join,
}

-- Natural numbers in place of floats.
abbrev naturals : Floats
naturals = record {
  Float = ℕ;
  of_int = λ x. 1;
  mul = λ x y. x * y;
  lt = ltb;
  le = leb;
  eq = λ x y. x == y;
  unpack_f = λ b. 0;
  unpack_d = λ b. 0;
  show = λ x. "";
}

abbrev entry : Register ℕ
entry = record {
  address = some (ok (pos 0));
  dtype = none;
  channel_code = some "TEMP";
  scale = none;
  unit = none;
}

abbrev adapter : RtuAdapter ℕ
adapter = record { slave_id = 1; device_code = "GW"; registers = entry ∷ [] }

abbrev opened : Connection ℕ
opened = record { queue = []; logged = []; decoded = 0 }

handle_conn_second_example :
    let first =
      enqueue_frames naturals adapter (λ k. k) (split_rtu_frames (1 ∷ 3 ∷ 2 ∷ 0 ∷ [])).0 opened in
    let whole =
      handle_conn naturals adapter
        (λ k. k)
        ((1 ∷ 3 ∷ 2 ∷ 0 ∷ []) ∷ (1 ∷ 0x79 ∷ 0x84 ∷ []) ∷ [])
        opened in
    (whole.queue ≡ (handle_conn naturals adapter (λ k. k) ((1 ∷ 3 ∷ 2 ∷ 0 ∷ []) ∷ []) opened).queue)
    × (first.0 ≡ ok tt → whole.logged ≡ first.1.logged ++ Exception.attribute_error ∷ [])
handle_conn_second_example =
    handle_conn_second naturals adapter (λ k. k) 1 1 (3 ∷ 2 ∷ 0 ∷ []) (0x79 ∷ 0x84 ∷ []) [] opened

abbrev after_arrival : Consumer ℕ
after_arrival = record {
  arrived = 5 ∷ [];
  queue = 5 ∷ [];
  batch = [];
  ingested = [];
  stopping = false;
  finished = false;
}

abbrev after_take : Consumer ℕ
after_take = record after_arrival { queue = []; batch = 5 ∷ [] }

abbrev after_flush : Consumer ℕ
after_flush = record after_take { batch = []; ingested = (5 ∷ []) ∷ [] }

after_flush_reached : Reachable 2 after_flush
after_flush_reached =
    Reachable.next after_take after_flush
      (Reachable.next after_arrival after_take
        (Reachable.next started after_arrival Reachable.start (Step.arrive 5 started))
        (Step.take 5 [] after_arrival refl (omega arith) refl))
      (Step.flush 5 [] after_take refl refl)

Reachable-IsOrdered_example : IsOrdered 2 after_flush
Reachable-IsOrdered_example = Reachable-IsOrdered 2 after_flush after_flush_reached

abbrev after_stop : Consumer ℕ
after_stop = record after_flush { stopping = true }

abbrev after_finish : Consumer ℕ
after_finish = record after_stop { finished = true }

drained_join_example :
    (after_finish.stopping ≡ true)
    × (after_finish.queue ≡ [])
    × (after_finish.batch ≡ [])
    × (join after_finish.ingested ≡ after_finish.arrived)
drained_join_example =
    drained_join 2 after_stop after_finish
      (Reachable.next after_flush after_stop after_flush_reached (Step.stop after_flush))
      (Step.finish after_stop refl refl refl refl) refl refl
