-- ===== src/Ingest/Service.antt =====
-- `batch_ingest` and `get_latest` of app/services/data_service.py. The rows of the query for the codes
-- and what PostgreSQL's COPY, Redis and the broker answer are arguments. Texts that go through JSON are the records they are made of, and the free `extra` of a
-- reading is left out.
use zhiwei_backend.Prelude.{
  Done, ℕ, Bool, ◌&&◌, List, [], ◌∷◌, ◌++◌, Option, none, some, String, str_eq, ◌==◌, if◌then◌else◌,
  Action, Result, ok, err, pure, modify, length, ◌>>◌,
}

-- `ReadingIn` of app/schemas/data.py
pub record ReadingIn (Float : Type 0) : Type 0 where
  pub device_code : String
  pub channel_code : String
  pub timestamp : ℕ
  pub value : Float
  pub unit : String
  pub quality : String

-- A row of the join of devices, sensors and channels.
pub record CodeRow : Type 0 where
  pub device_code : String
  pub channel_code : String
  pub channel_id : ℕ
  pub project_id : ℕ

-- A row of the table `readings`.
pub record ReadingRow (Float : Type 0) : Type 0 where
  pub time : ℕ
  pub channel_id : ℕ
  pub value : Float
  pub quality : String

-- A reading with its channel and project.
pub record Accepted (Float : Type 0) : Type 0 where
  pub reading : ReadingIn Float
  pub channel_id : ℕ
  pub project_id : ℕ

-- The table, the keys `latest:…` of Redis, what was published there, and the batches that were handed
-- to the alert task.
pub record Sink (Float : Type 0) : Type 0 where
  pub readings : List (ReadingRow Float)
  pub latest : List (ℕ × ReadingIn Float)
  pub published : List (ℕ × Accepted Float)
  pub dispatched : List (List (Accepted Float))

-- What PostgreSQL's COPY, the Redis pipeline and the broker of Celery answer.
pub record Outcomes : Type 0 where
  pub copy : Result Done
  pub redis : Option (List (Bool × Bool))
  pub broker : Result Done

-- `code_map.get((device_code, channel_code))`: of rows with the same codes the last one stays in the
-- dictionary.
unfoldable pub lookup_code : String → String → List CodeRow → Option (ℕ × ℕ)
lookup_code device_code channel_code [] = none
lookup_code device_code channel_code (row ∷ rows) =
    elim (lookup_code device_code channel_code rows) [
      | some ids ↦ some ids
      | none ↦
          if str_eq row.device_code device_code && str_eq row.channel_code channel_code
          then some (row.channel_id, row.project_id)
          else none
    ]

module _ {Float : Type 0} where
  abbrev pub row_of : ReadingIn Float → ℕ → ReadingRow Float
  row_of r channel_id = record {
    time = r.timestamp;
    channel_id = channel_id;
    value = r.value;
    quality = r.quality;
  }

  -- one round of the loop: `none` is its `continue`
  abbrev pub accept :
      ReadingIn Float
      → Option (ℕ × ℕ)
      → List (ReadingRow Float) × List (Accepted Float)
      → List (ReadingRow Float) × List (Accepted Float)
  accept r none rest = rest
  accept r (some (channel_id, project_id)) (records, accepted) = (
    row_of r channel_id ∷ records,
    record { reading = r; channel_id = channel_id; project_id = project_id } ∷ accepted,
  )

  -- the loop over the readings
  unfoldable pub accept_all :
      List CodeRow → List (ReadingIn Float) → List (ReadingRow Float) × List (Accepted Float)
  accept_all codes [] = ([], [])
  accept_all codes (r ∷ readings) =
      accept r (lookup_code r.device_code r.channel_code codes) (accept_all codes readings)

  -- `SET latest:…`
  unfoldable pub set_latest :
      ℕ → ReadingIn Float → List (ℕ × ReadingIn Float) → List (ℕ × ReadingIn Float)
  set_latest channel_id r [] = (channel_id, r) ∷ []
  set_latest channel_id r ((key, old) ∷ latest) =
      if key == channel_id
      then (channel_id, r) ∷ latest
      else (key, old) ∷ set_latest channel_id r latest

  -- `SET` and `PUBLISH` of a reading
  abbrev pub cache_latest : Accepted Float → Sink Float → Sink Float
  cache_latest a s = record s { latest = set_latest a.channel_id a.reading s.latest }

  abbrev pub publish : Accepted Float → Sink Float → Sink Float
  publish a s = record s { published = s.published ++ (a.project_id, a) ∷ [] }

  -- the commands of a pipeline that Redis takes whole
  unfoldable pub execute : List (Accepted Float) → Sink Float → Sink Float
  execute [] s = s
  execute (a ∷ accepted) s = execute accepted (publish a (cache_latest a s))

  -- A pipeline is no transaction: of one that raises, `took` says of each reading which of its two commands
  -- Redis has executed; none of those after the list's end.
  unfoldable pub execute_some : List (Bool × Bool) → List (Accepted Float) → Sink Float → Sink Float
  execute_some [] accepted s = s
  execute_some ((set, sent) ∷ took) [] s = s
  execute_some ((set, sent) ∷ took) (a ∷ accepted) s =
      let cached = if set then cache_latest a s else s in
      execute_some took accepted (if sent then publish a cached else cached)

  -- What Redis did: `none` if the call returns. An exception is logged and goes no further.
  unfoldable pub publish_realtime :
      Option (List (Bool × Bool)) → List (Accepted Float) → Sink Float → Sink Float
  publish_realtime none accepted s = execute accepted s
  publish_realtime (some took) accepted s = execute_some took accepted s

  -- `delay` of the task; an exception of the broker is logged and goes no further
  abbrev pub hand_over : Result Done → List (Accepted Float) → Sink Float → Sink Float
  hand_over (ok _) accepted s = record s { dispatched = s.dispatched ++ accepted ∷ [] }
  hand_over (err e) accepted s = s

  abbrev pub dispatch_alert_check : Result Done → List (Accepted Float) → Sink Float → Sink Float
  dispatch_alert_check broker [] s = s
  dispatch_alert_check broker (a ∷ accepted) s = hand_over broker (a ∷ accepted) s

  abbrev pub copy_records : Result Done → List (ReadingRow Float) → Action (Sink Float) Done
  copy_records (ok _) records s = (ok tt, record s { readings = s.readings ++ records })
  copy_records (err e) records s = (err e, s)

  -- the part after the loop
  abbrev pub write_accepted :
      Outcomes → List (ReadingRow Float) → List (Accepted Float) → Action (Sink Float) ℕ
  write_accepted outcomes [] accepted = pure 0
  write_accepted outcomes (r ∷ records) accepted = do
    copy_records outcomes.copy (r ∷ records)
    modify (publish_realtime outcomes.redis accepted)
    modify (dispatch_alert_check outcomes.broker accepted)
    pure (length (r ∷ records))

  unfoldable pub batch_ingest :
      List CodeRow → Outcomes → List (ReadingIn Float) → Action (Sink Float) ℕ
  batch_ingest codes outcomes [] = pure 0
  batch_ingest codes outcomes (r ∷ readings) =
      let (records, accepted) = accept_all codes (r ∷ readings) in
      write_accepted outcomes records accepted

  unfoldable pub find_latest : ℕ → List (ℕ × ReadingIn Float) → Option (ReadingIn Float)
  find_latest channel_id [] = none
  find_latest channel_id ((key, r) ∷ latest) =
      if key == channel_id then some r else find_latest channel_id latest

  abbrev pub get_latest : ℕ → Action (Sink Float) (Option (ReadingIn Float))
  get_latest channel_id s = (ok (find_latest channel_id s.latest), s)
