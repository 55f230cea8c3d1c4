-- ===== src/Alerts/Trigger.antt =====
-- `trigger_alert`: one open alert for a channel and level, the others untouched, or the exception that a
-- window too long raises.
use zhiwei_backend.Prelude.{
  ℕ, ◌-◌, ◌*◌, ◌≤◌, ◌<◌, ◌⊎◌, ltb, Bool-cases, err, Exception, ◌≡◌, refl, ◌∙◌, Bool, true, false,
  List, [], ◌∷◌, none, some, String, eq_refl, arith, inl, inr, Option-cases, ◌==◌, ==_self,
  if◌then◌else◌, Result, ok,
}
use zhiwei_backend.Prelude.Floats.{Floats}
use zhiwei_backend.Prelude.Rows.{select, get}
use zhiwei_backend.Prelude.Rows.Laws.{
  Distinct, ids, count-append, get-put, get-append_new, AllBelow-Absent, Absent-get,
  one_or_none-cases,
}
use zhiwei_backend.Alerts.Rules.{TriggerEvent}
use zhiwei_backend.Alerts.Table.{Alert, AlertTable, alert_id, is_open, is_recent, matches, latest}
use zhiwei_backend.Alerts.Service.{
  refreshed, reopened, new_alert, recent_alert, reopen_or_insert, trigger_with, trigger_alert,
}
use zhiwei_backend.Alerts.Invariant.{
  IsSound, open_count, same_key, written, written-IsSound, added, added-IsSound,
}
use zhiwei_backend.Alerts.Keys.{open_count_key, is_open-matches, bit_open, write_open, at_most_one}

module _ (floats : Floats) where
  open floats use {Float}

  -- What a call that began at `t` has done: it returned the alert of the event, which is stored and
  -- open; the alert counts as new exactly if none was open before; of this channel and level one
  -- alert is open now, of any other as many as before.
  pub record IsTriggered (c : ℕ) (event : TriggerEvent Float) (t : AlertTable Float)
      (out : Result (Alert Float × Bool) × AlertTable Float) : Type 0 where
    pub alert : Alert Float
    pub created : Bool
    pub returned : out.0 ≡ ok (alert, created)
    pub opened : is_open c event.level alert ≡ true
    pub valued : (alert.value ≡ some event.value) × (alert.threshold ≡ some event.threshold)
    pub stored : get alert_id alert.id out.1.rows ≡ some alert
    pub is_new : created ≡ (open_count c event.level t == 0)
    pub counts :
        (d : ℕ) (m : String)
        → open_count d m out.1 ≡ (if same_key c event.level d m then 1 else open_count d m t)
    pub sound : IsSound out.1

  trigger_with-some :
      (c : ℕ) (event : TriggerEvent Float) (ts : ℕ) (t : AlertTable Float) (a : Alert Float)
      → IsSound t
      → open_count c event.level t ≡ 1
      → is_open c event.level a ≡ true
      → get alert_id a.id t.rows ≡ some a
      → IsTriggered c event t (trigger_with floats c event ts (some a) t)
  unfolding trigger_with
  trigger_with-some c event ts t a s n p e =
      let a' = refreshed event a in
      let m = is_open-matches c event.level a p in
      let counts = write_open c event.level t a' a s e p m.0 (rw m.1 n) in
      record {
        alert = a';
        created = false;
        returned = refl;
        opened = p;
        valued = (refl, refl);
        stored = get-put alert_id a.id a' a t.rows e ∙ rw ==_self;
        is_new = rw n;
        counts = counts;
        sound =
            written-IsSound a' a t s e
              (at_most_one c event.level t (λ d l. open_count d l (written a' t)) s counts);
      }

  reopen_some :
      (c : ℕ) (event : TriggerEvent Float) (ts : ℕ) (t : AlertTable Float) (a : Alert Float)
      → IsSound t
      → open_count c event.level t ≡ 0
      → matches c event.level a ≡ true
      → a.is_resolved ≡ true
      → get alert_id a.id t.rows ≡ some a
      → IsTriggered c event t (reopen_or_insert floats c event ts (some a) t)
  unfolding reopen_or_insert
  reopen_some c event ts t a s n m r e =
      let a' = reopened event ts a in
      let opened : is_open c event.level a' ≡ true = ground arith in
      let counts = write_open c event.level t a' a s e opened m (rw r n) in
      record {
        alert = a';
        created = true;
        returned = refl;
        opened = opened;
        valued = (refl, refl);
        stored = get-put alert_id a.id a' a t.rows e ∙ rw ==_self;
        is_new = rw n;
        counts = counts;
        sound =
            written-IsSound a' a t s e
              (at_most_one c event.level t (λ d l. open_count d l (written a' t)) s counts);
      }

  insert_new :
      (c : ℕ) (event : TriggerEvent Float) (ts : ℕ) (t : AlertTable Float)
      → IsSound t
      → open_count c event.level t ≡ 0
      → IsTriggered c event t (reopen_or_insert floats c event ts none t)
  unfolding reopen_or_insert new_alert
  insert_new c event ts t s n =
      let a = new_alert floats c event ts t.next_id in
      let mine : matches c event.level a ≡ true = ground (arith, eq_refl event.level) in
      let counts : (d : ℕ) (m : String)
          → open_count d m (added a t)
            ≡ (if same_key c event.level d m then 1 else open_count d m t) =
        λ d m. ground (
          arith,
          count-append (is_open d m) t.rows a,
          bit_open c d event.level m a mine,
          open_count_key c d event.level m t,
        ) in
      record {
        alert = a;
        created = true;
        returned = refl;
        opened = ground (arith, mine);
        valued = (refl, refl);
        stored =
            get-append_new alert_id a t.rows
              (AllBelow-Absent t.next_id (ids alert_id t.rows) s.below);
        is_new = rw n;
        counts = counts;
        sound =
            added-IsSound a t s refl
              (at_most_one c event.level t (λ d l. open_count d l (added a t)) s counts);
      }

  pub latest_selected :
      (p : Alert Float → Bool) (rows : List (Alert Float)) (a : Alert Float)
      → Distinct (ids alert_id rows)
      → latest (select p rows) ≡ some a
      → (p a ≡ true) × (get alert_id a.id rows ≡ some a)
  unfolding latest
  latest_selected p [] a d e = cc
  latest_selected p (x ∷ rows) a d e =
      ground (arith, latest_selected p rows a d.1, Absent-get alert_id x.id rows d.0)

  pub recent_found :
      (c : ℕ) (event : TriggerEvent Float) (ts : ℕ) (t : AlertTable Float) (a : Alert Float)
      → IsSound t
      → recent_alert floats c event ts t ≡ ok (some a)
      → (matches c event.level a ≡ true)
        × (a.is_resolved ≡ true)
        × (get alert_id a.id t.rows ≡ some a)
  unfolding recent_alert
  recent_found c event ts t a s e =
      let since = ts - event.suppress_seconds * 1000000 in
      let (p, g) =
        latest_selected (is_recent c event.level since) t.rows a s.distinct (ground (arith, e)) in
      (ground arith, ground arith, g)

  -- The window of an event begins in the years that a `datetime` holds.
  abbrev pub Fits : ℕ → TriggerEvent Float → Type 0
  Fits ts event = event.suppress_seconds * 1000000 ≤ ts

  recent-Fits :
      (c : ℕ) (event : TriggerEvent Float) (ts : ℕ) (t : AlertTable Float)
      → Fits ts event
      → (recent_alert floats c event ts t ≡ ok none)
        ⊎ ((a : Alert Float) × (recent_alert floats c event ts t ≡ ok (some a)))
  unfolding recent_alert
  recent-Fits c event ts t fits =
      let since = ts - event.suppress_seconds * 1000000 in
      let reached : ltb ts (event.suppress_seconds * 1000000) ≡ false = ground (arith, fits) in
      elim (Bool-cases (ltb 0 event.suppress_seconds)) [
        | inr off ↦ inl (rw off refl)
        | inl on ↦ elim (Option-cases (latest (select (is_recent c event.level since) t.rows))) [
          | inl e ↦ inl (rw (on, reached, e) refl)
          | inr (a, e) ↦ inr (a, rw (on, reached, e) refl)
        ]
      ]

  trigger_with-none :
      (c : ℕ) (event : TriggerEvent Float) (ts : ℕ) (t : AlertTable Float)
      → IsSound t
      → Fits ts event
      → open_count c event.level t ≡ 0
      → IsTriggered c event t (trigger_with floats c event ts none t)
  unfolding trigger_with
  trigger_with-none c event ts t s fits n = elim (recent-Fits c event ts t fits) [
    | inl e ↦ rw e (insert_new c event ts t s n)
    | inr (a, e) ↦
        let (m, r, g) = recent_found c event ts t a s e in
        rw e (reopen_some c event ts t a s n m r g)
  ]

  trigger_with-overflow :
      (c : ℕ) (event : TriggerEvent Float) (ts : ℕ) (t : AlertTable Float)
      → ts < event.suppress_seconds * 1000000
      → trigger_with floats c event ts none t ≡ (err Exception.overflow_error, t)
  unfolding trigger_with recent_alert
  trigger_with-overflow c event ts t before =
      let on : ltb 0 event.suppress_seconds ≡ true = ground (arith, before) in
      let early : ltb ts (event.suppress_seconds * 1000000) ≡ true = ground (arith, before) in
      rw (on, early) refl

  pub trigger_alert-Fits :
      (c : ℕ) (event : TriggerEvent Float) (ts : ℕ) (t : AlertTable Float)
      → IsSound t
      → Fits ts event
      → IsTriggered c event t (trigger_alert floats c event ts t)
  unfolding trigger_alert
  trigger_alert-Fits c event ts t s fits =
      elim (one_or_none-cases alert_id (is_open c event.level) t.rows s.distinct
        (s.single c event.level)) [
          | inl (e, n) ↦ rw e (trigger_with-none c event ts t s fits n)
          | inr (a, e, n, p, g) ↦ rw e (trigger_with-some c event ts t a s n p g)
        ]

  -- On a sound table, one of two cases holds. If no alert of the channel and level is open and the
  -- suppression window begins before the year 1, `trigger_alert` raises OverflowError and changes nothing. If
  -- the window begins no earlier, or one such alert is open, it raises nothing: it returns an alert of the event's
  -- channel and level that is stored, open, and has the event's value and threshold; `created` is true exactly
  -- if none was open before; of this channel and level one alert is open then, of any other as many as before,
  -- and the table is sound.
  pub trigger_alert-IsTriggered :
      (c : ℕ) (event : TriggerEvent Float) (ts : ℕ) (t : AlertTable Float)
      → IsSound t
      → ((open_count c event.level t ≡ 0)
          × (ts < event.suppress_seconds * 1000000)
          × (trigger_alert floats c event ts t ≡ (err Exception.overflow_error, t)))
        ⊎ (((event.suppress_seconds * 1000000 ≤ ts) ⊎ (open_count c event.level t ≡ 1))
            × IsTriggered c event t (trigger_alert floats c event ts t))
  unfolding trigger_alert
  trigger_alert-IsTriggered c event ts t s =
      elim (one_or_none-cases alert_id (is_open c event.level) t.rows s.distinct
        (s.single c event.level)) [
          | inl (e, n) ↦ elim (Bool-cases (ltb ts (event.suppress_seconds * 1000000))) [
            | inl early ↦
                let before : ts < event.suppress_seconds * 1000000 = ground (arith, early) in
                inl (n, before, rw e (trigger_with-overflow c event ts t before))
            | inr late ↦
                let fits : event.suppress_seconds * 1000000 ≤ ts = ground (arith, late) in
                inr (inl fits, rw e (trigger_with-none c event ts t s fits n))
          ]
          | inr (a, e, n, p, g) ↦ inr (inr n, rw e (trigger_with-some c event ts t a s n p g))
        ]
