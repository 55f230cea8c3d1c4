-- ===== src/Alerts/Tests.antt =====
-- Runs of the alert service, and its theorems at such inputs: two rules on one channel, and a table
-- with an alert that was closed.
use zhiwei_backend.Prelude.{
  ℕ, ◌*◌, ◌≤◌, ◌<◌, ◌⊎◌, err, Exception, ◌≡◌, refl, true, List, [], ◌∷◌, none, some, arith, ltb,
  leb, ◌==◌, if◌then◌else◌, ok, ◌↔◌,
}
use zhiwei_backend.Prelude.Floats.{Floats}
use zhiwei_backend.Prelude.Rows.{get}
use zhiwei_backend.Prelude.Rows.Laws.{bit}
use zhiwei_backend.Alerts.Rules.{Rule, TriggerEvent, evaluate_thresholds}
use zhiwei_backend.Alerts.Table.{Alert, AlertTable, alert_id, latest}
use zhiwei_backend.Alerts.Service.{
  trigger_alert, trigger_with, reopen_or_insert, recent_alert, reopened, close_open_alerts,
  acknowledge_alert,
}
use zhiwei_backend.Alerts.Invariant.{IsSound, open_count, written}
use zhiwei_backend.Alerts.Trigger.{IsTriggered, trigger_alert-IsTriggered}
use zhiwei_backend.Alerts.Suppression.{trigger_alert_reopens, end_of}
use zhiwei_backend.Alerts.Closing.{
  IsClosed, close_open_alerts-IsClosed, IsAcknowledged, acknowledge_alert-IsAcknowledged,
}
use zhiwei_backend.Alerts.Evaluation.{raised, AnyFires, evaluate_thresholds-raised}
use zhiwei_backend.Alerts.Task.{
  Pipeline, CheckedReading, ChannelMeta, check_reading, process_readings,
}
use zhiwei_backend.Alerts.Processing.{Leaves, check_reading-Leaves}
use zhiwei_backend.Alerts.Batch.{Returns, process_readings-Returns}

-- Natural numbers in place of floats.
abbrev naturals : Floats
naturals = record {
  Float = ℕ;
  of_int = λ x. 0;
  mul = λ x y. x * y;
  lt = ltb;
  le = leb;
  eq = λ x y. x == y;
  unpack_f = λ b. 0;
  unpack_d = λ b. 0;
  show = λ x. "limit";
}

abbrev warning : Rule ℕ
warning = record {
  operator = some "gt";
  threshold = some 10;
  level = some "warning";
  message = none;
  suppress_seconds = none;
}

abbrev critical : Rule ℕ
critical = record warning { threshold = some 20; level = some "critical" }

abbrev rules : List (Rule ℕ)
rules = warning ∷ critical ∷ []

abbrev event : TriggerEvent ℕ
event = record {
  level = "warning";
  threshold = 10;
  operator = "gt";
  value = 15;
  message = none;
  suppress_seconds = 60;
}

abbrev past : Alert ℕ
past = record {
  id = 1;
  channel_id = 7;
  alert_type = some "threshold";
  level = some "warning";
  message = some "old";
  value = some 12;
  threshold = some 10;
  started_at = 60000100;
  ended_at = some 60000200;
  is_resolved = true;
  resolved_by = some 3;
}

abbrev table : AlertTable ℕ
table = record { rows = past ∷ []; next_id = 2 }

table-IsSound : IsSound table
table-IsSound = record {
  distinct = (tt, tt);
  below = (omega arith, tt);
  single = λ d m. ground arith;
}

abbrev start : Pipeline ℕ
start = record { alerts = table; published = []; notified = [] }

abbrev reading : CheckedReading ℕ
reading = record {
  channel_id = some 7;
  value = some 15;
  timestamp = ok 60000300;
  device_code = "D";
  channel_code = "C";
}

abbrev meta : List (ChannelMeta ℕ)
meta = record { channel_id = 7; alert_rules = some rules; project_id = 1 } ∷ []

-- The closed alert is reopened and keeps the user who resolved it.
reopen_run :
    trigger_alert naturals 7 event 60000300 table
    ≡ (ok (reopened event 60000300 past, true), written (reopened event 60000300 past) table)
unfolding trigger_alert trigger_with recent_alert reopen_or_insert latest
reopen_run = refl

-- A window that reaches before the year 1.
overflow_run :
    trigger_alert naturals 7 (record event { suppress_seconds = 61 }) 60000300 table
    ≡ (err Exception.overflow_error, table)
unfolding trigger_alert trigger_with recent_alert
overflow_run = refl

trigger_alert-IsTriggered_example :
    ((open_count 7 event.level table ≡ 0)
      × (60000300 < event.suppress_seconds * 1000000)
      × (trigger_alert naturals 7 event 60000300 table ≡ (err Exception.overflow_error, table)))
    ⊎ (((event.suppress_seconds * 1000000 ≤ 60000300) ⊎ (open_count 7 event.level table ≡ 1))
        × IsTriggered naturals 7 event table (trigger_alert naturals 7 event 60000300 table))
trigger_alert-IsTriggered_example =
    trigger_alert-IsTriggered naturals 7 event 60000300 table table-IsSound

trigger_alert_reopens_example :
    (a : Alert ℕ) × (get alert_id a.id table.rows ≡ some a)
    × (end_of past.ended_at ≤ end_of a.ended_at)
    × (trigger_alert naturals 7 event 60000300 table
        ≡ (ok (reopened event 60000300 a, true), written (reopened event 60000300 a) table))
    × ((reopened event 60000300 a).resolved_by ≡ a.resolved_by)
trigger_alert_reopens_example =
    trigger_alert_reopens naturals 7 event 60000300 table past table-IsSound refl (omega arith)
      (omega arith) refl refl

close_open_alerts-IsClosed_example :
    IsClosed 7 "warning" 60000300 table (close_open_alerts 7 "warning" 60000300 table)
close_open_alerts-IsClosed_example =
    close_open_alerts-IsClosed 7 "warning" 60000300 table table-IsSound

acknowledge_alert-IsAcknowledged_example :
    IsAcknowledged 60000500 1 9 table (acknowledge_alert 60000500 1 9 table)
acknowledge_alert-IsAcknowledged_example =
    acknowledge_alert-IsAcknowledged 60000500 1 9 table table-IsSound

evaluate_thresholds-raised_example :
    (raised "critical" (evaluate_thresholds naturals 15 (some rules)) ≡ true)
    ↔ AnyFires naturals 15 "critical" rules
evaluate_thresholds-raised_example = evaluate_thresholds-raised naturals 15 "critical" rules

check_reading-Leaves_example :
    Leaves
      (λ d m.
        if 7 == d
        then bit (raised m (evaluate_thresholds naturals 15 (some rules)))
        else open_count d m table)
      (check_reading naturals 1 7 rules reading 15 start)
check_reading-Leaves_example =
    check_reading-Leaves naturals 1 7 60000300 rules reading 15 start table-IsSound refl
      (omega arith, (omega arith, tt))

process_readings-Returns_example :
    Returns naturals (process_readings naturals meta (reading ∷ []) start)
process_readings-Returns_example =
    process_readings-Returns naturals meta (reading ∷ []) start table-IsSound
      ((60000300, refl, ((omega arith, (omega arith, tt)), tt)), tt)
