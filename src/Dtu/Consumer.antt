-- ===== src/Dtu/Consumer.antt =====
-- `TcpServerManager._consumer` of app/dtus/server.py: the queue, the batch being filled, and the batches
-- that were handed to `batch_ingest`. When a wait times out is not determined, so the loop is a relation
-- on its states; arrivals come from the connections in between.
use zhiwei_backend.Prelude.{
  ℕ, ◌≤◌, ◌<◌, ◌≡◌, refl, sym, ap, ◌∙◌, Bool, true, false, List, [], ◌∷◌, ◌++◌, arith, append-nil,
  append_assoc, length, length-append,
}

-- `arrived` is everything that was put on the queue, in order; `finished` says that the task has returned.
pub record Consumer (A : Type 0) : Type 0 where
  pub arrived : List A
  pub queue : List A
  pub batch : List A
  pub ingested : List (List A)
  pub stopping : Bool
  pub finished : Bool

module _ {A : Type 0} where
  abbrev pub started : Consumer A
  started = record {
    arrived = [];
    queue = [];
    batch = [];
    ingested = [];
    stopping = false;
    finished = false;
  }

  -- `arrive` is `put_nowait` of a connection, `stop` the flag that `stop()` sets; `take` is a round of
  -- the inner loop, `flush` the end of the outer one, at a deadline or with a full batch, and `finish` its
  -- `break`, which is tested with the batch just flushed or empty. Connections go on after it.
  pub data Step (batch_size : ℕ) : Consumer A → Consumer A → Type 0 where
    arrive :
        (a : A) (s : Consumer A)
        → Step batch_size s (record s { arrived = s.arrived ++ a ∷ []; queue = s.queue ++ a ∷ [] })
    stop : (s : Consumer A) → Step batch_size s (record s { stopping = true })
    take :
        (a : A) (rest : List A) (s : Consumer A)
        → s.finished ≡ false
        → length s.batch < batch_size
        → s.queue ≡ a ∷ rest
        → Step batch_size s (record s { queue = rest; batch = s.batch ++ a ∷ [] })
    flush :
        (a : A) (rest : List A) (s : Consumer A)
        → s.finished ≡ false
        → s.batch ≡ a ∷ rest
        → Step batch_size s (record s { batch = []; ingested = s.ingested ++ (a ∷ rest) ∷ [] })
    finish :
        (s : Consumer A)
        → s.finished ≡ false
        → s.batch ≡ []
        → s.stopping ≡ true
        → s.queue ≡ []
        → Step batch_size s (record s { finished = true })

  pub data Reachable (batch_size : ℕ) : Consumer A → Type 0 where
    start : Reachable batch_size started
    next :
        (s t : Consumer A) → Reachable batch_size s → Step batch_size s t → Reachable batch_size t

  abbrev pub join : List (List A) → List A
  join [] = []
  join (xs ∷ xss) = xs ++ join xss

  -- Each batch has items, and no more than the size.
  abbrev pub AllBatches : ℕ → List (List A) → Type 0
  AllBatches n [] = Unit
  AllBatches n (xs ∷ xss) = ((1 ≤ length xs) × (length xs ≤ n)) × AllBatches n xss

  -- Nothing is lost or reordered between the queue and the database, and batches keep to the size.
  pub record IsOrdered (batch_size : ℕ) (s : Consumer A) : Type 0 where
    pub order : join s.ingested ++ (s.batch ++ s.queue) ≡ s.arrived
    pub room : length s.batch ≤ batch_size
    pub batches : AllBatches batch_size s.ingested

  join-append : (xss : List (List A)) (xs : List A) → join (xss ++ xs ∷ []) ≡ join xss ++ xs
  join-append [] xs = append-nil xs
  join-append (ys ∷ xss) xs =
      ap (λ (t : List A). ys ++ t) (join-append xss xs) ∙ sym (append_assoc ys (join xss) xs)

  AllBatches-append :
      (n : ℕ) (xss : List (List A)) (xs : List A)
      → AllBatches n xss
      → 1 ≤ length xs
      → length xs ≤ n
      → AllBatches n (xss ++ xs ∷ [])
  AllBatches-append n [] xs h p q = ((p, q), tt)
  AllBatches-append n (ys ∷ xss) xs h p q = (h.0, AllBatches-append n xss xs h.1 p q)

  Step-IsOrdered : (n : ℕ) (s t : Consumer A) → IsOrdered n s → Step n s t → IsOrdered n t
  Step-IsOrdered n s _ h (arrive a _) = record {
    order =
        ap (λ (l : List A). join s.ingested ++ l) (sym (append_assoc s.batch s.queue (a ∷ [])))
        ∙ sym (append_assoc (join s.ingested) (s.batch ++ s.queue) (a ∷ []))
        ∙ ap (λ (l : List A). l ++ a ∷ []) h.order;
    room = h.room;
    batches = h.batches;
  }
  Step-IsOrdered n s _ h (stop _) = record { order = h.order; room = h.room; batches = h.batches }
  Step-IsOrdered n s _ h (finish _ on b p e) = record {
    order = h.order;
    room = h.room;
    batches = h.batches;
  }
  Step-IsOrdered n s _ h (take a rest _ on less e) = record {
    order =
        ap (λ (l : List A). join s.ingested ++ l)
          (append_assoc s.batch (a ∷ []) rest ∙ ap (λ (l : List A). s.batch ++ l) (sym e))
        ∙ h.order;
    room = omega (arith, less, length-append s.batch (a ∷ []));
    batches = h.batches;
  }
  Step-IsOrdered n s _ h (flush a rest _ on e) = record {
    order =
        ap (λ (l : List A). l ++ s.queue) (join-append s.ingested (a ∷ rest))
        ∙ append_assoc (join s.ingested) (a ∷ rest) s.queue
        ∙ ap (λ (l : List A). join s.ingested ++ (l ++ s.queue)) (sym e)
        ∙ h.order;
    room = omega arith;
    batches =
        AllBatches-append n s.ingested (a ∷ rest) h.batches (omega arith)
          (omega (arith, h.room, ap length e));
  }

  -- At every moment what was put on the queue is, in order, what the batches handed to `batch_ingest`
  -- hold, then the batch being filled, then the queue; no batch is empty or larger than the size.
  pub Reachable-IsOrdered : (n : ℕ) (s : Consumer A) → Reachable n s → IsOrdered n s
  Reachable-IsOrdered n _ start = record { order = refl; room = omega arith; batches = tt }
  Reachable-IsOrdered n _ (next s t path step) =
      Step-IsOrdered n s t (Reachable-IsOrdered n s path) step

  unfinished : (s : Consumer A) → {P : Type 0} → s.finished ≡ false → s.finished ≡ true → P
  unfinished s on off = cc

  -- The step with which the consumer's task returns: from any state that the loop can reach, when it breaks,
  -- `stop()` was called and the batches handed to `batch_ingest` hold, in order, everything that was put on
  -- the queue until then; nothing is left in the queue or in a batch that was begun.
  pub drained_join :
      (n : ℕ) (s t : Consumer A)
      → Reachable n s
      → Step n s t
      → s.finished ≡ false
      → t.finished ≡ true
      → (t.stopping ≡ true) × (t.queue ≡ []) × (t.batch ≡ []) × (join t.ingested ≡ t.arrived)
  drained_join n s _ path (arrive a _) on f = unfinished s on f
  drained_join n s _ path (stop _) on f = unfinished s on f
  drained_join n s _ path (take a rest _ _ less e) on f = unfinished s on f
  drained_join n s _ path (flush a rest _ _ e) on f = unfinished s on f
  drained_join n s _ path (finish _ _ b p e) on f = (
    p,
    e,
    b,
    sym (append-nil (join s.ingested))
        ∙ ap (λ (l : List A). join s.ingested ++ l) (sym (rw (e, b) refl))
        ∙ (Reachable-IsOrdered n s path).order,
  )
