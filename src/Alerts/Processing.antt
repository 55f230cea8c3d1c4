-- ===== src/Alerts/Processing.antt =====
-- What the task leaves of the alerts of a channel.
use zhiwei_backend.Prelude.{
  ℕ, ◌≡◌, refl, sym, ap, ◌∙◌, Bool, true, false, ◌&&◌, List, [], ◌∷◌, ◌++◌, Option, none, some,
  String, arith, subst, inl, inr, ◌==◌, if◌then◌else◌, Result, ok,
}
use zhiwei_backend.Prelude.Floats.{Floats}
use zhiwei_backend.Prelude.Rows.Laws.{bit}
use zhiwei_backend.Alerts.Rules.{TriggerEvent}
use zhiwei_backend.Alerts.Table.{Alert, AlertTable}
use zhiwei_backend.Alerts.Service.{closed, trigger_alert, close_open_alerts}
use zhiwei_backend.Alerts.Invariant.{IsSound, open_count}
use zhiwei_backend.Prelude.{Done, map}
use zhiwei_backend.Alerts.Rules.{Rule, evaluate_thresholds}
use zhiwei_backend.Alerts.Trigger.{trigger_alert-Fits}
use zhiwei_backend.Alerts.Closing.{IsClosed, close_open_alerts-IsClosed}
use zhiwei_backend.Alerts.Evaluation.{raised}
use zhiwei_backend.Alerts.Windows.{EventsFit, RulesFit, evaluate_thresholds-EventsFit}
use zhiwei_backend.Alerts.Levels.{member-difference, member-level_of, open_levels_complete}
use zhiwei_backend.Alerts.Task.{
  Push, Pipeline, CheckedReading, member, difference, open_levels, close_levels, trigger_events,
  check_reading, level_of, announce,
}

module _ {Float : Type 0} where
  -- A step that returned, left a sound table, and moved the counts of open alerts as `n` says.
  pub record Leaves (n : ℕ → String → ℕ) (out : Result Done × Pipeline Float) : Type 0 where
    pub returned : out.0 ≡ ok tt
    pub counts : (d : ℕ) (m : String) → open_count d m out.1.alerts ≡ n d m
    pub sound : IsSound out.1.alerts

  after_close :
      ℕ → ℕ → String → Option (Alert Float) → AlertTable Float → Pipeline Float → Pipeline Float
  after_close project cid l none t s = record s { alerts = t }
  after_close project cid l (some a) t s = record s {
    alerts = t;
    published = s.published ++ Push.resolved project a.id cid l a.ended_at ∷ [];
  }

  alerts-after_close :
      (project cid : ℕ) (l : String) (found : Option (Alert Float)) (t : AlertTable Float)
      (s : Pipeline Float)
      → (after_close project cid l found t s).alerts ≡ t
  unfolding after_close
  alerts-after_close project cid l none t s = refl
  alerts-after_close project cid l (some a) t s = refl

  close_levels_step :
      (project cid ts : ℕ) (l : String) (levels : List String) (s : Pipeline Float)
      (found : Option (Alert Float)) (t : AlertTable Float)
      → close_open_alerts cid l ts s.alerts ≡ (ok found, t)
      → close_levels project cid ts (l ∷ levels) s
        ≡ close_levels project cid ts levels (after_close project cid l found t s)
  unfolding close_levels after_close
  close_levels_step project cid ts l levels s none t e = rw e
  close_levels_step project cid ts l levels s (some a) t e = rw e

  IsClosed-found :
      (c : ℕ) (l : String) (ts : ℕ) (t : AlertTable Float)
      (out : Result (Option (Alert Float)) × AlertTable Float)
      → IsClosed c l ts t out
      → (found : Option (Alert Float)) × (out ≡ (ok found, out.1))
  IsClosed-found c l ts t out h = elim h.returned [
    | inl (e, _, _) ↦ (none, ap (λ (r : Result (Option (Alert Float))). (r, out.1)) e)
    | inr (a, e, _, _, _) ↦
        (some (closed ts a), ap (λ (r : Result (Option (Alert Float))). (r, out.1)) e)
  ]

  -- The loop that closes levels returns, and of the channel none of these levels is open then.
  close_levels-Leaves :
      (project cid ts : ℕ) (levels : List String) (s : Pipeline Float)
      → IsSound s.alerts
      → Leaves
          (λ d m. if (cid == d) && member m levels then 0 else open_count d m s.alerts)
          (close_levels project cid ts levels s)
  close_levels-Leaves project cid ts [] s h = record {
    returned = unfold close_levels in refl;
    counts = unfold close_levels in λ d m. ground arith;
    sound = unfold close_levels in h;
  }
  close_levels-Leaves project cid ts (l ∷ levels) s h =
      let out = close_open_alerts cid l ts s.alerts in
      let done = close_open_alerts-IsClosed cid l ts s.alerts h in
      let (found, e) = IsClosed-found cid l ts s.alerts out done in
      let s' = after_close project cid l found out.1 s in
      let same : s'.alerts ≡ out.1 = alerts-after_close project cid l found out.1 s in
      let sound : IsSound s'.alerts =
        subst (λ (t : AlertTable Float). IsSound t) (sym same) done.sound in
      let rest = close_levels-Leaves project cid ts levels s' sound in
      rw (close_levels_step project cid ts l levels s found out.1 e) (record {
        returned = rest.returned;
        counts = λ d m.
            rest.counts d m
            ∙ ap
                (λ (t : AlertTable Float).
                  if (cid == d) && member m levels then 0 else open_count d m t)
                same
            ∙ ground (arith, done.counts d m);
        sound = rest.sound;
      })

module _ (floats : Floats) where
  open floats use {Float}

  after_trigger :
      ℕ
      → ℕ
      → CheckedReading Float
      → TriggerEvent Float
      → Alert Float
      → Bool
      → AlertTable Float
      → Pipeline Float
      → Pipeline Float
  after_trigger project cid reading event a created t s =
      (announce project cid reading event (a, created) (record s { alerts = t })).1

  alerts-after_trigger :
      (project cid : ℕ) (reading : CheckedReading Float) (event : TriggerEvent Float)
      (a : Alert Float) (created : Bool) (t : AlertTable Float) (s : Pipeline Float)
      → (after_trigger project cid reading event a created t s).alerts ≡ t
  unfolding after_trigger
  alerts-after_trigger project cid reading event a true t s = refl
  alerts-after_trigger project cid reading event a false t s = refl

  trigger_events_step :
      (project cid : ℕ) (reading : CheckedReading Float) (ts : ℕ) (event : TriggerEvent Float)
      (events : List (TriggerEvent Float)) (s : Pipeline Float) (a : Alert Float) (created : Bool)
      (t : AlertTable Float)
      → trigger_alert floats cid event ts s.alerts ≡ (ok (a, created), t)
      → trigger_events floats project cid reading ts (event ∷ events) s
        ≡ trigger_events floats project cid reading ts events
            (after_trigger project cid reading event a created t s)
  unfolding trigger_events after_trigger
  trigger_events_step project cid reading ts event events s a true t e = rw e
  trigger_events_step project cid reading ts event events s a false t e = rw e

  -- The loop over the events returns, and each level that was raised has one open alert then.
  trigger_events-Leaves :
      (project cid : ℕ) (reading : CheckedReading Float) (ts : ℕ)
      (events : List (TriggerEvent Float)) (s : Pipeline Float)
      → IsSound s.alerts
      → EventsFit ts events
      → Leaves
          (λ d m. if (cid == d) && raised m events then 1 else open_count d m s.alerts)
          (trigger_events floats project cid reading ts events s)
  trigger_events-Leaves project cid reading ts [] s h fits = record {
    returned = unfold trigger_events in refl;
    counts = unfold trigger_events in λ d m. ground arith;
    sound = unfold trigger_events in h;
  }
  trigger_events-Leaves project cid reading ts (event ∷ events) s h (fits, all_fit) =
      let out = trigger_alert floats cid event ts s.alerts in
      let done = trigger_alert-Fits floats cid event ts s.alerts h fits in
      let e : out ≡ (ok (done.alert, done.created), out.1) =
        ap (λ (r : Result (Alert Float × Bool)). (r, out.1)) done.returned in
      let s' = after_trigger project cid reading event done.alert done.created out.1 s in
      let same : s'.alerts ≡ out.1 =
        alerts-after_trigger project cid reading event done.alert done.created out.1 s in
      let sound : IsSound s'.alerts =
        subst (λ (t : AlertTable Float). IsSound t) (sym same) done.sound in
      let rest = trigger_events-Leaves project cid reading ts events s' sound all_fit in
      rw (trigger_events_step project cid reading ts event events s done.alert done.created out.1 e)
        (record {
          returned = rest.returned;
          counts = λ d m.
              rest.counts d m
              ∙ ap
                  (λ (t : AlertTable Float).
                    if (cid == d) && raised m events then 1 else open_count d m t)
                  same
              ∙ ground (arith, done.counts d m);
          sound = rest.sound;
        })

  check_reading_step :
      (project cid ts : ℕ) (rules : List (Rule Float)) (reading : CheckedReading Float)
      (value : Float) (s : Pipeline Float)
      → reading.timestamp ≡ ok ts
      → let events = evaluate_thresholds floats value (some rules) in
        let levels = difference (open_levels cid s.alerts) (map level_of events) in
        (close_levels project cid ts levels s).0 ≡ ok tt
        → check_reading floats project cid rules reading value s
          ≡ trigger_events floats project cid reading ts events
              (close_levels project cid ts levels s).1
  unfolding check_reading
  check_reading_step project cid ts rules reading value s parsed closed = rw (parsed, closed)

  -- On a sound table a reading of a channel with rules, whose time can be read and is late enough for the
  -- suppression window of every rule to begin no earlier than the year 1, returns and leaves the channel with
  -- one open alert of each level that its value raises and none of any other; the alerts of other channels
  -- are as many as before.
  pub check_reading-Leaves :
      (project cid ts : ℕ) (rules : List (Rule Float)) (reading : CheckedReading Float)
      (value : Float) (s : Pipeline Float)
      → IsSound s.alerts
      → reading.timestamp ≡ ok ts
      → RulesFit ts rules
      → Leaves
          (λ d m.
            if cid == d
            then bit (raised m (evaluate_thresholds floats value (some rules)))
            else open_count d m s.alerts)
          (check_reading floats project cid rules reading value s)
  check_reading-Leaves project cid ts rules reading value s h parsed fits =
      let events = evaluate_thresholds floats value (some rules) in
      let levels = difference (open_levels cid s.alerts) (map level_of events) in
      let closing = close_levels-Leaves project cid ts levels s h in
      let s' = (close_levels project cid ts levels s).1 in
      let firing =
        trigger_events-Leaves project cid reading ts events s' closing.sound
          (evaluate_thresholds-EventsFit floats value ts rules fits) in
      rw (check_reading_step project cid ts rules reading value s parsed closing.returned) (record {
        returned = firing.returned;
        counts = λ d m.
            firing.counts d m
            ∙ ground (
              arith,
              closing.counts d m,
              member-difference m (open_levels cid s.alerts) (map level_of events),
              member-level_of m events,
              open_levels_complete cid m s.alerts,
              ap (λ (k : ℕ). open_count k m s.alerts),
            );
        sound = firing.sound;
      })
