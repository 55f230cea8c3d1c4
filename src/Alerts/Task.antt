-- ===== src/Alerts/Task.antt =====
-- `_process_readings` of app/tasks/alert_tasks.py, over the alert table, the messages pushed to Redis
-- and the alarms handed to the notification channels. A push and a notification that fail are logged
-- and skipped there, so what is recorded here is what was handed over. The joined rows of channels and
-- devices are an argument. Python's set of open levels is a list without repetition.
use zhiwei_backend.Prelude.{
  Done, ℕ, Bool, false, not, ◌&&◌, ◌||◌, List, [], ◌∷◌, ◌++◌, map, Option, none, some, String,
  str_eq, ◌==◌, if◌then◌else◌, Action, Result, ok, pure, lift, gets, ◌>>=◌, ◌>>◌,
}
use zhiwei_backend.Prelude.Floats.{Floats}
use zhiwei_backend.Prelude.Rows.{select}
use zhiwei_backend.Alerts.Rules.{Rule, TriggerEvent, evaluate_thresholds}
use zhiwei_backend.Alerts.Table.{Alert, AlertTable}
use zhiwei_backend.Alerts.Service.{close_open_alerts, trigger_alert}

pub data Push (Float : Type 0) : Type 0 where
  -- project, alert, channel, level, end
  resolved : ℕ → ℕ → ℕ → String → Option ℕ → Push Float
  -- project, alert, channel, level, value, threshold, message, status, start
  fired : ℕ → ℕ → ℕ → String → Float → Float → Option String → String → ℕ → Push Float

-- `AlertPayload` of app/notifications/base.py
pub record AlertPayload (Float : Type 0) : Type 0 where
  pub alert_id : ℕ
  pub channel_id : ℕ
  pub project_id : ℕ
  pub level : String
  pub value : Float
  pub threshold : Float
  pub message : Option String
  pub started_at : ℕ
  pub device_code : String
  pub channel_code : String

pub record Pipeline (Float : Type 0) : Type 0 where
  pub alerts : AlertTable Float
  pub published : List (Push Float)
  pub notified : List (AlertPayload Float)

-- One message of the task; `timestamp` is what `_parse_ts` makes of the message's text.
pub record CheckedReading (Float : Type 0) : Type 0 where
  pub channel_id : Option ℕ
  pub value : Option Float
  pub timestamp : Result ℕ
  pub device_code : String
  pub channel_code : String

-- A row of the join of channels, sensors and devices.
pub record ChannelMeta (Float : Type 0) : Type 0 where
  pub channel_id : ℕ
  pub alert_rules : Option (List (Rule Float))
  pub project_id : ℕ

abbrev pub member : String → List String → Bool
member l [] = false
member l (k ∷ ks) = str_eq k l || member l ks

abbrev pub add_level : Option String → List String → List String
add_level none ks = ks
add_level (some l) ks = if member l ks then ks else l ∷ ks

-- `open_levels - triggered_levels`
abbrev pub difference : List String → List String → List String
difference [] triggered = []
difference (l ∷ ls) triggered =
    let rest = difference ls triggered in if member l triggered then rest else l ∷ rest

abbrev pub status_of : Bool → String
status_of created = if created then "triggered" else "updated"

module _ {Float : Type 0} where
  -- `rules or []`
  abbrev pub or_empty : Option (List (Rule Float)) → List (Rule Float)
  or_empty none = []
  or_empty (some rules) = rules

  -- `meta.get(cid, ([], None))`
  unfoldable pub lookup_meta : ℕ → List (ChannelMeta Float) → List (Rule Float) × Option ℕ
  lookup_meta cid [] = ([], none)
  lookup_meta cid (row ∷ rows) =
      if row.channel_id == cid
      then (or_empty row.alert_rules, some row.project_id)
      else lookup_meta cid rows

  abbrev pub on_alerts {ℓ} : {A : Type ℓ} → Action (AlertTable Float) A → Action (Pipeline Float) A
  on_alerts m s = let (r, t) = m s.alerts in (r, record s { alerts = t })

  abbrev pub publish : Push Float → Action (Pipeline Float) Done
  publish push s = (ok tt, record s { published = s.published ++ push ∷ [] })

  abbrev pub notify : AlertPayload Float → Action (Pipeline Float) Done
  notify payload s = (ok tt, record s { notified = s.notified ++ payload ∷ [] })

  abbrev pub level_of : TriggerEvent Float → String
  level_of event = event.level

  abbrev pub is_open_on : ℕ → Alert Float → Bool
  is_open_on channel_id a = (a.channel_id == channel_id) && not a.is_resolved

  abbrev pub collect_levels : List (Alert Float) → List String
  collect_levels [] = []
  collect_levels (a ∷ rows) = add_level a.level (collect_levels rows)

  -- `_open_levels`
  unfoldable pub open_levels : ℕ → AlertTable Float → List String
  open_levels channel_id t = collect_levels (select (is_open_on channel_id) t.rows)

  abbrev pub publish_closed : ℕ → ℕ → String → Option (Alert Float) → Action (Pipeline Float) Done
  publish_closed project cid level none = pure tt
  publish_closed project cid level (some a) =
      publish (Push.resolved project a.id cid level a.ended_at)

  -- the loop over the levels that are open and no longer triggered
  unfoldable pub close_levels : ℕ → ℕ → ℕ → List String → Action (Pipeline Float) Done
  close_levels project cid ts [] = pure tt
  close_levels project cid ts (level ∷ levels) = do
    closed ← on_alerts (close_open_alerts cid level ts)
    publish_closed project cid level closed
    close_levels project cid ts levels

  abbrev pub payload_of :
      ℕ → ℕ → CheckedReading Float → TriggerEvent Float → Alert Float → AlertPayload Float
  payload_of project cid reading event alert = record {
    alert_id = alert.id;
    channel_id = cid;
    project_id = project;
    level = event.level;
    value = event.value;
    threshold = event.threshold;
    message = alert.message;
    started_at = alert.started_at;
    device_code = reading.device_code;
    channel_code = reading.channel_code;
  }

  abbrev pub announce :
      ℕ
      → ℕ
      → CheckedReading Float
      → TriggerEvent Float
      → Alert Float × Bool
      → Action (Pipeline Float) Done
  announce project cid reading event (alert, created) = do
    publish (
        Push.fired project alert.id cid event.level event.value event.threshold alert.message
          (status_of created) alert.started_at)
    if created then notify (payload_of project cid reading event alert) else pure tt

module _ (floats : Floats) where
  open floats use {Float}

  -- the loop over the events
  unfoldable pub trigger_events :
      ℕ → ℕ → CheckedReading Float → ℕ → List (TriggerEvent Float) → Action (Pipeline Float) Done
  trigger_events project cid reading ts [] = pure tt
  trigger_events project cid reading ts (event ∷ events) = do
    outcome ← on_alerts (trigger_alert floats cid event ts)
    announce project cid reading event outcome
    trigger_events project cid reading ts events

  -- the part of the loop's body that is reached by a reading of a channel with rules
  unfoldable pub check_reading :
      ℕ → ℕ → List (Rule Float) → CheckedReading Float → Float → Action (Pipeline Float) Done
  check_reading project cid rules reading value = do
    ts ← lift reading.timestamp
    let events = evaluate_thresholds floats value (some rules)
    levels ← gets (λ s. open_levels cid s.alerts)
    close_levels project cid ts (difference levels (map level_of events))
    trigger_events project cid reading ts events

  abbrev pub with_rules :
      ℕ → CheckedReading Float → Float → List (Rule Float) × Option ℕ → Action (Pipeline Float) Done
  with_rules cid reading value (rules, none) = pure tt
  with_rules cid reading value ([], some project) = pure tt
  with_rules cid reading value (rule ∷ rules, some project) =
      check_reading project cid (rule ∷ rules) reading value

  -- the guards of the loop's body, by the message's channel and value
  abbrev pub process_value :
      List (ChannelMeta Float)
      → CheckedReading Float
      → Option ℕ
      → Option Float
      → Action (Pipeline Float) Done
  process_value meta reading none value = pure tt
  process_value meta reading (some cid) none = pure tt
  process_value meta reading (some cid) (some value) =
      with_rules cid reading value (lookup_meta cid meta)

  unfoldable pub process_reading :
      List (ChannelMeta Float) → CheckedReading Float → Action (Pipeline Float) Done
  process_reading meta reading = process_value meta reading reading.channel_id reading.value

  unfoldable pub process_readings :
      List (ChannelMeta Float) → List (CheckedReading Float) → Action (Pipeline Float) Done
  process_readings meta [] = pure tt
  process_readings meta (reading ∷ readings) = do
    process_reading meta reading
    process_readings meta readings
