-- ===== src/Ingest/Latest.antt =====
-- What a batch leaves in the table, in Redis and with the alert task.
use zhiwei_backend.Prelude.{
  ℕ, suc, ◌≡◌, refl, sym, ap, ◌∙◌, Bool, true, false, List, [], ◌∷◌, ◌++◌, map, Option, none, some,
  arith, ◌==◌, if◌then◌else◌, Result, ok, err, Done, length, append-nil,
}
use zhiwei_backend.Prelude.Rows.{select}
use zhiwei_backend.Ingest.Service.{
  ReadingIn, CodeRow, ReadingRow, Accepted, Sink, lookup_code, row_of, accept, accept_all,
  set_latest, publish_realtime, execute, execute_some, cache_latest, publish, dispatch_alert_check,
  Outcomes, batch_ingest, find_latest, write_accepted,
}

-- COPY has succeeded.
abbrev pub copied : Option (List (Bool × Bool)) → Result Done → Outcomes
copied redis broker = record { copy = ok tt; redis = redis; broker = broker }

abbrev or_else : {A : Type 0} → Option A → Option A → Option A
or_else none d = d
or_else (some a) d = some a

-- The codes are those of this channel.
abbrev is_channel : ℕ → Option (ℕ × ℕ) → Bool
is_channel c none = false
is_channel c (some (k, project)) = k == c

abbrev is_some : Option (ℕ × ℕ) → Bool
is_some none = false
is_some (some ids) = true

module _ {Float : Type 0} where
  -- The last reading of a batch whose codes are those of the channel.
  pub last_of : List CodeRow → ℕ → List (ReadingIn Float) → Option (ReadingIn Float)
  last_of codes c [] = none
  last_of codes c (r ∷ readings) =
      or_else (last_of codes c readings)
        (if is_channel c (lookup_code r.device_code r.channel_code codes) then some r else none)

  abbrev last_accepted : ℕ → List (Accepted Float) → Option (ReadingIn Float)
  last_accepted c [] = none
  last_accepted c (a ∷ accepted) =
      or_else (last_accepted c accepted) (if a.channel_id == c then some a.reading else none)

  last_accepted-accept :
      (c : ℕ) (r : ReadingIn Float) (ids : Option (ℕ × ℕ))
      (rest : List (ReadingRow Float) × List (Accepted Float))
      → last_accepted c (accept r ids rest).1
        ≡ or_else (last_accepted c rest.1) (if is_channel c ids then some r else none)
  last_accepted-accept c r none (records, accepted) = or_none (last_accepted c accepted)
    where
      or_none : (o : Option (ReadingIn Float)) → o ≡ or_else o none
      or_none none = refl
      or_none (some x) = refl
  last_accepted-accept c r (some (k, project)) (records, accepted) = refl

  last_accepted-accept_all :
      (codes : List CodeRow) (c : ℕ) (readings : List (ReadingIn Float))
      → last_accepted c (accept_all codes readings).1 ≡ last_of codes c readings
  unfolding accept_all last_of
  last_accepted-accept_all codes c [] = refl
  last_accepted-accept_all codes c (r ∷ readings) =
      let ids = lookup_code r.device_code r.channel_code codes in
      last_accepted-accept c r ids (accept_all codes readings)
      ∙ ap (λ (o : Option (ReadingIn Float)). or_else o (if is_channel c ids then some r else none))
          (last_accepted-accept_all codes c readings)

  find_latest-set_latest :
      (c k : ℕ) (r : ReadingIn Float) (latest : List (ℕ × ReadingIn Float))
      → find_latest c (set_latest k r latest) ≡ (if k == c then some r else find_latest c latest)
  unfolding find_latest set_latest
  find_latest-set_latest c k r [] = ground arith
  find_latest-set_latest c k r ((key, old) ∷ latest) =
      ground (arith, find_latest-set_latest c k r latest)

  execute-latest :
      (c : ℕ) (accepted : List (Accepted Float)) (s : Sink Float)
      → find_latest c (execute accepted s).latest
        ≡ or_else (last_accepted c accepted) (find_latest c s.latest)
  unfolding execute
  execute-latest c [] s = refl
  execute-latest c (a ∷ accepted) s =
      execute-latest c accepted (publish a (cache_latest a s))
      ∙ ap (λ (o : Option (ReadingIn Float)). or_else (last_accepted c accepted) o)
          (find_latest-set_latest c a.channel_id a.reading s.latest)
      ∙ assoc (last_accepted c accepted) (a.channel_id == c) a.reading (find_latest c s.latest)
    where
      assoc :
          (o : Option (ReadingIn Float)) (b : Bool) (r : ReadingIn Float)
          (old : Option (ReadingIn Float))
          → or_else o (if b then some r else old)
            ≡ or_else (or_else o (if b then some r else none)) old
      assoc none true r old = refl
      assoc none false r old = refl
      assoc (some x) b r old = refl

  -- Redis is not the table, nor the alert task.
  abbrev IsElsewhere : Sink Float → Sink Float → Type 0
  IsElsewhere s s' = (s'.readings ≡ s.readings) × (s'.dispatched ≡ s.dispatched)

  execute-IsElsewhere :
      (accepted : List (Accepted Float)) (s : Sink Float) → IsElsewhere s (execute accepted s)
  unfolding execute
  execute-IsElsewhere [] s = (refl, refl)
  execute-IsElsewhere (a ∷ accepted) s = execute-IsElsewhere accepted (publish a (cache_latest a s))

  execute_some-IsElsewhere :
      (took : List (Bool × Bool)) (accepted : List (Accepted Float)) (s : Sink Float)
      → IsElsewhere s (execute_some took accepted s)
  unfolding execute_some
  execute_some-IsElsewhere [] accepted s = (refl, refl)
  execute_some-IsElsewhere ((set, sent) ∷ took) [] s = (refl, refl)
  execute_some-IsElsewhere ((true, true) ∷ took) (a ∷ accepted) s =
      execute_some-IsElsewhere took accepted (publish a (cache_latest a s))
  execute_some-IsElsewhere ((true, false) ∷ took) (a ∷ accepted) s =
      execute_some-IsElsewhere took accepted (cache_latest a s)
  execute_some-IsElsewhere ((false, true) ∷ took) (a ∷ accepted) s =
      execute_some-IsElsewhere took accepted (publish a s)
  execute_some-IsElsewhere ((false, false) ∷ took) (a ∷ accepted) s =
      execute_some-IsElsewhere took accepted s

  publish_realtime-IsElsewhere :
      (redis : Option (List (Bool × Bool))) (accepted : List (Accepted Float)) (s : Sink Float)
      → IsElsewhere s (publish_realtime redis accepted s)
  unfolding publish_realtime
  publish_realtime-IsElsewhere none accepted s = execute-IsElsewhere accepted s
  publish_realtime-IsElsewhere (some took) accepted s = execute_some-IsElsewhere took accepted s

  abbrev pub row_of_accepted : Accepted Float → ReadingRow Float
  row_of_accepted a = row_of a.reading a.channel_id

  rows-accept :
      (r : ReadingIn Float) (ids : Option (ℕ × ℕ))
      (rest : List (ReadingRow Float) × List (Accepted Float))
      → rest.0 ≡ map row_of_accepted rest.1
      → (accept r ids rest).0 ≡ map row_of_accepted (accept r ids rest).1
  rows-accept r none rest h = h
  rows-accept r (some (k, project)) (records, accepted) h =
      ap (λ (t : List (ReadingRow Float)). row_of r k ∷ t) h

  rows-accept_all :
      (codes : List CodeRow) (readings : List (ReadingIn Float))
      → (accept_all codes readings).0 ≡ map row_of_accepted (accept_all codes readings).1
  unfolding accept_all
  rows-accept_all codes [] = refl
  rows-accept_all codes (r ∷ readings) =
      rows-accept r (lookup_code r.device_code r.channel_code codes) (accept_all codes readings)
        (rows-accept_all codes readings)

  abbrev pub is_known : List CodeRow → ReadingIn Float → Bool
  is_known codes r = is_some (lookup_code r.device_code r.channel_code codes)

  abbrev pub reading_of : Accepted Float → ReadingIn Float
  reading_of a = a.reading

  whole-accept :
      (r : ReadingIn Float) (ids : Option (ℕ × ℕ))
      (rest : List (ReadingRow Float) × List (Accepted Float))
      → map reading_of (accept r ids rest).1
        ≡ (if is_some ids then r ∷ map reading_of rest.1 else map reading_of rest.1)
  whole-accept r none rest = refl
  whole-accept r (some (k, project)) (records, accepted) = refl

  whole-accept_all :
      (codes : List CodeRow) (readings : List (ReadingIn Float))
      → map reading_of (accept_all codes readings).1 ≡ select (is_known codes) readings
  unfolding accept_all
  whole-accept_all codes [] = refl
  whole-accept_all codes (r ∷ readings) =
      let known = is_known codes r in
      whole-accept r (lookup_code r.device_code r.channel_code codes) (accept_all codes readings)
      ∙ ap (λ (rs : List (ReadingIn Float)). if known then r ∷ rs else rs)
          (whole-accept_all codes readings)

  -- The latest readings that a batch leaves in Redis: for each channel the last of the batch that is of this
  -- channel, or the one that was there. Nothing is said of a Redis that fails.
  pub IsCached :
      Option (List (Bool × Bool))
      → List CodeRow
      → List (ReadingIn Float)
      → Sink Float
      → Sink Float
      → Type 0
  IsCached none codes readings s s' =
      (c : ℕ)
      → find_latest c s'.latest ≡ or_else (last_of codes c readings) (find_latest c s.latest)
  IsCached (some took) codes readings s s' = Unit

  -- The batches that a broker takes.
  abbrev pub handed : Result Done → List (Accepted Float) → List (List (Accepted Float))
  handed (ok _) [] = []
  handed (ok _) (a ∷ accepted) = (a ∷ accepted) ∷ []
  handed (err e) accepted = []

  -- What a batch that is written has done: the readings with known codes were accepted, in order, and
  -- none other; it returned their number, and their rows are at the end of the table, whatever Redis and the
  -- broker did; Redis has the latest readings, if it works; and the alert task got the batch, if there is one
  -- and the broker takes it.
  pub record IsIngested (codes : List CodeRow) (redis : Option (List (Bool × Bool)))
      (broker : Result Done) (readings : List (ReadingIn Float)) (s : Sink Float)
      (out : Result ℕ × Sink Float) : Type 0 where
    pub accepted : List (Accepted Float)
    pub whole : map reading_of accepted ≡ select (is_known codes) readings
    pub returned : out.0 ≡ ok (length accepted)
    pub stored : out.1.readings ≡ s.readings ++ map row_of_accepted accepted
    pub latest : IsCached redis codes readings s out.1
    pub alerts : out.1.dispatched ≡ s.dispatched ++ handed broker accepted

  length-map_rows :
      (accepted : List (Accepted Float)) → length (map row_of_accepted accepted) ≡ length accepted
  length-map_rows [] = refl
  length-map_rows (a ∷ accepted) = ap suc (length-map_rows accepted)

  unchanged-IsCached :
      (redis : Option (List (Bool × Bool))) (codes : List CodeRow)
      (readings : List (ReadingIn Float)) (s : Sink Float)
      → ((c : ℕ) → none ≡ last_of codes c readings)
      → IsCached redis codes readings s s
  unfolding IsCached
  unchanged-IsCached none codes readings s last =
      λ c. ap (λ (o : Option (ReadingIn Float)). or_else o (find_latest c s.latest)) (last c)
  unchanged-IsCached (some took) codes readings s last = tt

  publish_realtime-IsCached :
      (redis : Option (List (Bool × Bool))) (codes : List CodeRow)
      (readings : List (ReadingIn Float)) (accepted : List (Accepted Float)) (s s' t : Sink Float)
      → ((c : ℕ) → last_accepted c accepted ≡ last_of codes c readings)
      → s'.latest ≡ s.latest
      → t.latest ≡ (publish_realtime redis accepted s').latest
      → IsCached redis codes readings s t
  unfolding IsCached publish_realtime
  publish_realtime-IsCached none codes readings accepted s s' t last same out = λ c.
      ap (λ (l : List (ℕ × ReadingIn Float)). find_latest c l) out
      ∙ execute-latest c accepted s'
      ∙ ap (λ (o : Option (ReadingIn Float)). or_else o (find_latest c s'.latest)) (last c)
      ∙ ap
          (λ (l : List (ℕ × ReadingIn Float)). or_else (last_of codes c readings) (find_latest c l))
          same
  publish_realtime-IsCached (some took) codes readings accepted s s' t last same out = tt

  latest-dispatch :
      (broker : Result Done) (accepted : List (Accepted Float)) (s : Sink Float)
      → ((dispatch_alert_check broker accepted s).latest ≡ s.latest)
        × ((dispatch_alert_check broker accepted s).readings ≡ s.readings)
        × ((dispatch_alert_check broker accepted s).dispatched
            ≡ s.dispatched ++ handed broker accepted)
  latest-dispatch (ok _) [] s = (refl, refl, sym (append-nil s.dispatched))
  latest-dispatch (err e) [] s = (refl, refl, sym (append-nil s.dispatched))
  latest-dispatch (ok _) (a ∷ accepted) s = (refl, refl, refl)
  latest-dispatch (err e) (a ∷ accepted) s = (refl, refl, sym (append-nil s.dispatched))

  handed_none :
      (broker : Result Done) (s : Sink Float) → s.dispatched ≡ s.dispatched ++ handed broker []
  handed_none (ok _) s = sym (append-nil s.dispatched)
  handed_none (err e) s = sym (append-nil s.dispatched)

  write-IsIngested :
      (codes : List CodeRow) (redis : Option (List (Bool × Bool))) (broker : Result Done)
      (readings : List (ReadingIn Float)) (accepted : List (Accepted Float)) (s : Sink Float)
      → map reading_of accepted ≡ select (is_known codes) readings
      → ((c : ℕ) → last_accepted c accepted ≡ last_of codes c readings)
      → IsIngested codes redis broker readings s
          (write_accepted (copied redis broker) (map row_of_accepted accepted) accepted s)
  write-IsIngested codes redis broker readings [] s whole last = record {
    accepted = [];
    whole = whole;
    returned = refl;
    stored = sym (append-nil s.readings);
    latest = unchanged-IsCached redis codes readings s last;
    alerts = handed_none broker s;
  }
  write-IsIngested codes redis broker readings (a ∷ accepted) s whole last =
      let s' : Sink Float = record s {
        readings = s.readings ++ map row_of_accepted (a ∷ accepted);
      } in
      let others = publish_realtime-IsElsewhere redis (a ∷ accepted) s' in
      let (cached, rows, batches) =
        latest-dispatch broker (a ∷ accepted) (publish_realtime redis (a ∷ accepted) s') in
      record {
        accepted = a ∷ accepted;
        whole = whole;
        returned = ap (λ (n : ℕ). ok (suc n)) (length-map_rows accepted);
        stored = rows ∙ others.0;
        latest =
            publish_realtime-IsCached redis codes readings (a ∷ accepted) s s' _ last refl cached;
        alerts =
            batches
            ∙ ap (λ (d : List (List (Accepted Float))). d ++ handed broker (a ∷ accepted)) others.1;
      }

  -- A batch whose COPY succeeds, whatever Redis and the broker answer: it returns, the readings with known
  -- codes are accepted, in order, and none other, their number is returned and their rows are at the end of
  -- the table. If Redis takes the commands, the latest reading of each channel is the last of the batch that is of this
  -- channel, or the one that was there. If there are accepted readings and the broker takes the task, the alert
  -- task gets them as one batch, and otherwise none.
  pub batch_ingest-IsIngested :
      (codes : List CodeRow) (redis : Option (List (Bool × Bool))) (broker : Result Done)
      (readings : List (ReadingIn Float)) (s : Sink Float)
      → IsIngested codes redis broker readings s
          (batch_ingest codes (copied redis broker) readings s)
  unfolding batch_ingest last_of
  batch_ingest-IsIngested codes redis broker [] s = record {
    accepted = [];
    whole = refl;
    returned = refl;
    stored = sym (append-nil s.readings);
    latest = unchanged-IsCached redis codes [] s (λ c. refl);
    alerts = handed_none broker s;
  }
  batch_ingest-IsIngested codes redis broker (r ∷ readings) s =
      rw (rows-accept_all codes (r ∷ readings)) (
        write-IsIngested codes redis broker (r ∷ readings) (accept_all codes (r ∷ readings)).1 s
          (whole-accept_all codes (r ∷ readings))
          (λ c. last_accepted-accept_all codes c (r ∷ readings)))
