-- ===== src/Alerts/Service.antt =====
-- The life of an alert: `trigger_alert`, `close_open_alerts` and `acknowledge_alert` of
-- app/services/alert_service.py. Times are
-- microseconds from the beginning of the year 1, the least that a `datetime` holds.
use Prim.Native.String.{◌++◌ as str_append}
use zhiwei_backend.Prelude.{
  Done, ℕ, suc, ◌-◌, ◌*◌, Bool, true, false, [], ◌∷◌, ◌++◌, Option, none, some, String, str_eq, ltb,
  if◌then◌else◌, Action, Result, Exception, ok, err, biz_exception, pure, raise_if, some_or,
  scalar_one_or_none, ◌>>=◌, ◌>>◌,
}
use zhiwei_backend.Prelude.Floats.{Floats}
use zhiwei_backend.Prelude.Rows.{select, get, put}
use zhiwei_backend.Alerts.Rules.{TriggerEvent}
use zhiwei_backend.Alerts.Table.{Alert, AlertTable, alert_id, is_open, is_recent, latest}

abbrev pub set_message : Option String → Option String → Option String
set_message none old = old
set_message (some m) old = some m

abbrev pub or_now : Option ℕ → ℕ → ℕ
or_now none now = now
or_now (some t) now = t

module _ {Float : Type 0} where
  -- `db.flush()` after a change of one mapped object
  abbrev pub flush : Alert Float → Action (AlertTable Float) Done
  flush a t = (ok tt, record t { rows = put alert_id a t.rows })

  -- `select(Alert).where(…)`, `scalar_one_or_none`
  abbrev pub open_alert : ℕ → String → Action (AlertTable Float) (Option (Alert Float))
  open_alert channel_id level t = (scalar_one_or_none (select (is_open channel_id level) t.rows), t)

  abbrev pub refreshed : TriggerEvent Float → Alert Float → Alert Float
  refreshed event a = record a { value = some event.value; threshold = some event.threshold }

  abbrev pub reopened : TriggerEvent Float → ℕ → Alert Float → Alert Float
  reopened event timestamp a = record a {
    is_resolved = false;
    ended_at = none;
    started_at = timestamp;
    value = some event.value;
    threshold = some event.threshold;
    message = set_message event.message a.message;
  }

  abbrev pub without_suppression : TriggerEvent Float → TriggerEvent Float
  without_suppression event = record event { suppress_seconds = 0 }

  abbrev pub closed : ℕ → Alert Float → Alert Float
  closed timestamp a = record a { ended_at = some timestamp; is_resolved = true }

  abbrev pub acknowledged : ℕ → ℕ → Alert Float → Alert Float
  acknowledged user_id now a = record a {
    is_resolved = true;
    ended_at = some (or_now a.ended_at now);
    resolved_by = some user_id;
  }

  unfoldable pub close_with :
      ℕ → Option (Alert Float) → Action (AlertTable Float) (Option (Alert Float))
  close_with timestamp none = pure none
  close_with timestamp (some a) = do flush (closed timestamp a); pure (some (closed timestamp a))

  unfoldable pub close_open_alerts :
      ℕ → String → ℕ → Action (AlertTable Float) (Option (Alert Float))
  close_open_alerts channel_id level timestamp = do
    found ← open_alert channel_id level
    close_with timestamp found

  unfoldable pub get_alert : ℕ → Action (AlertTable Float) (Alert Float)
  get_alert i t = some_or (get alert_id i t.rows) (biz_exception "ALERT_NOT_FOUND" "告警不存在" 404) t

  -- `now` is the value of `datetime.now(UTC)`
  unfoldable pub acknowledge_alert : ℕ → ℕ → ℕ → Action (AlertTable Float) (Alert Float)
  acknowledge_alert now i user_id = do
    a ← get_alert i
    raise_if a.is_resolved (biz_exception "ALERT_ALREADY_RESOLVED" "告警已确认" 409)
    flush (acknowledged user_id now a)
    pure (acknowledged user_id now a)

module _ (floats : Floats) where
  open floats use {Float, show}

  abbrev default_message : TriggerEvent Float → String
  default_message event =
      str_append (str_append event.operator " ") (str_append (show event.threshold) " 触发")

  -- `event.message or f"{event.operator} {event.threshold} 触发"`
  abbrev pub message_of : TriggerEvent Float → String
  message_of event = elim event.message [
    | none ↦ default_message event
    | some m ↦ if str_eq m "" then default_message event else m
  ]

  unfoldable pub new_alert : ℕ → TriggerEvent Float → ℕ → ℕ → Alert Float
  new_alert channel_id event timestamp i = record {
    id = i;
    channel_id = channel_id;
    alert_type = some "threshold";
    level = some event.level;
    message = some (message_of event);
    value = some event.value;
    threshold = some event.threshold;
    started_at = timestamp;
    ended_at = none;
    is_resolved = false;
    resolved_by = none;
  }

  -- `db.add(alert)`, `db.flush()`
  abbrev pub insert_alert : ℕ → TriggerEvent Float → ℕ → Action (AlertTable Float) (Alert Float)
  insert_alert channel_id event timestamp t =
      let a = new_alert channel_id event timestamp t.next_id in
      (ok a, record { rows = t.rows ++ a ∷ []; next_id = suc t.next_id })

  -- The alert to reopen, if the event has a suppression window. `timestamp - timedelta(…)` raises when the
  -- window begins before the year 1.
  unfoldable pub recent_alert :
      ℕ → TriggerEvent Float → ℕ → AlertTable Float → Result (Option (Alert Float))
  recent_alert channel_id event timestamp t =
      if ltb 0 event.suppress_seconds
      then (if ltb timestamp (event.suppress_seconds * 1000000)
          then err Exception.overflow_error
          else ok (
              latest (
                select
                  (is_recent channel_id event.level (timestamp - event.suppress_seconds * 1000000))
                  t.rows)))
      else ok none

  unfoldable pub reopen_or_insert :
      ℕ
      → TriggerEvent Float
      → ℕ
      → Option (Alert Float)
      → Action (AlertTable Float) (Alert Float × Bool)
  reopen_or_insert channel_id event timestamp (some a) = do
    flush (reopened event timestamp a)
    pure (reopened event timestamp a, true)
  reopen_or_insert channel_id event timestamp none = do
    a ← insert_alert channel_id event timestamp
    pure (a, true)

  unfoldable pub trigger_with :
      ℕ
      → TriggerEvent Float
      → ℕ
      → Option (Alert Float)
      → Action (AlertTable Float) (Alert Float × Bool)
  trigger_with channel_id event timestamp (some a) = do
    flush (refreshed event a)
    pure (refreshed event a, false)
  trigger_with channel_id event timestamp none = do
    recent ← (λ t. (recent_alert channel_id event timestamp t, t))
    reopen_or_insert channel_id event timestamp recent

  unfoldable pub trigger_alert :
      ℕ → TriggerEvent Float → ℕ → Action (AlertTable Float) (Alert Float × Bool)
  trigger_alert channel_id event timestamp = do
    found ← open_alert channel_id event.level
    trigger_with channel_id event timestamp found

  unfoldable pub upsert_alert :
      ℕ → TriggerEvent Float → ℕ → Action (AlertTable Float) (Alert Float × Bool)
  upsert_alert channel_id event timestamp =
      trigger_alert channel_id (without_suppression event) timestamp
