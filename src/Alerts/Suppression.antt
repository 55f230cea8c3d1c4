-- ===== src/Alerts/Suppression.antt =====
-- The suppression window of `trigger_alert`: a resolved alert that ended within it is reopened.
use zhiwei_backend.Prelude.{
  ℕ, ◌-◌, ◌*◌, ◌≤◌, ◌<◌, ◌≡◌, refl, Bool, true, false, List, [], ◌∷◌, Option, none, some, String,
  arith, inl, inr, Option-cases, Bool-cases, ◌⊎◌, ltb, ◌==◌, lt→ltb, ok,
}
use zhiwei_backend.Prelude.Floats.{Floats}
use zhiwei_backend.Prelude.Rows.{select, get}
use zhiwei_backend.Prelude.Rows.Laws.{one_or_none-cases}
use zhiwei_backend.Alerts.Rules.{TriggerEvent}
use zhiwei_backend.Alerts.Table.{Alert, AlertTable, alert_id, is_open, is_recent, latest}
use zhiwei_backend.Alerts.Service.{
  reopened, recent_alert, reopen_or_insert, trigger_with, trigger_alert,
}
use zhiwei_backend.Alerts.Invariant.{IsSound, open_count, written}
use zhiwei_backend.Alerts.Trigger.{recent_found}

abbrev pub end_of : Option ℕ → ℕ
end_of none = 0
end_of (some t) = t

module _ {Float : Type 0} where
  -- a query that selects ended alerts only
  abbrev EndedOnly : (Alert Float → Bool) → Type 0
  EndedOnly p = (a : Alert Float) → p a ≡ true → (t : ℕ) × (a.ended_at ≡ some t)

  latest_selects :
      (p : Alert Float → Bool) (rows : List (Alert Float)) (a : Alert Float)
      → latest (select p rows) ≡ some a
      → p a ≡ true
  unfolding latest
  latest_selects p [] a e = cc
  latest_selects p (x ∷ rows) a e = ground (arith, latest_selects p rows a)

  -- one more selected row
  latest_cons :
      (x : Alert Float) (rows : List (Alert Float)) (tx : ℕ)
      → x.ended_at ≡ some tx
      → ((a : Alert Float) → latest rows ≡ some a → (t : ℕ) × (a.ended_at ≡ some t))
      → (n : ℕ) → (n ≤ tx) ⊎ ((a : Alert Float) × (latest rows ≡ some a) × (n ≤ end_of a.ended_at))
      → (a : Alert Float) × (latest (x ∷ rows) ≡ some a) × (n ≤ end_of a.ended_at)
  unfolding latest
  latest_cons x rows tx ex h n best = elim (Option-cases (latest rows)) [
    | inl e ↦ (x, rw e, ground arith)
    | inr (y, e) ↦
        let (ty, ey) = h y e in
        elim (Bool-cases (ltb tx ty)) [
          | inl less ↦ (y, ground arith, ground arith)
          | inr more ↦ (x, ground arith, ground arith)
        ]
  ]

  -- The alert that `latest` picks ended no earlier than any that the query selects.
  latest_last :
      (p : Alert Float → Bool) (rows : List (Alert Float)) (b : Alert Float)
      → EndedOnly p
      → get alert_id b.id rows ≡ some b
      → p b ≡ true
      → (a : Alert Float) × (latest (select p rows) ≡ some a)
        × (end_of b.ended_at ≤ end_of a.ended_at)
  latest_last p [] b h g e = cc
  latest_last p (x ∷ rows) b h g e =
      let ends : (a : Alert Float)
          → latest (select p rows) ≡ some a
          → (t : ℕ) × (a.ended_at ≡ some t) =
        λ a l. h a (latest_selects p rows a l) in
      elim (Bool-cases (x.id == b.id)) [
        | inl same ↦
            let xb : x ≡ b = ground arith in
            let px : p x ≡ true = rw xb e in
            let (tx, ex) = h x px in
            rw px (
              latest_cons x (select p rows) tx ex ends (end_of b.ended_at)
                (inl (rw (← xb) (rw ex (omega arith)))))
        | inr other ↦
            let later = latest_last p rows b h (ground arith) e in
            elim (Bool-cases (p x)) [
              | inl px ↦
                  let (tx, ex) = h x px in
                  rw px (latest_cons x (select p rows) tx ex ends (end_of b.ended_at) (inr later))
              | inr px ↦ rw px later
            ]
      ]

  is_recent-EndedOnly : (c : ℕ) (l : String) (since : ℕ) → EndedOnly (is_recent c l since)
  is_recent-EndedOnly c l since a e = elim (Option-cases a.ended_at) [
    | inl none_yet ↦ ground arith
    | inr (t, ended) ↦ (t, ended)
  ]

module _ (floats : Floats) where
  open floats use {Float}

  trigger_recent :
      (c : ℕ) (event : TriggerEvent Float) (ts : ℕ) (t : AlertTable Float) (a : Alert Float)
      → IsSound t
      → open_count c event.level t ≡ 0
      → recent_alert floats c event ts t ≡ ok (some a)
      → trigger_alert floats c event ts t
        ≡ (ok (reopened event ts a, true), written (reopened event ts a) t)
  unfolding trigger_alert trigger_with reopen_or_insert
  trigger_recent c event ts t a s n recent =
      elim (one_or_none-cases alert_id (is_open c event.level) t.rows s.distinct
        (s.single c event.level)) [
          | inl (e, _) ↦ rw (e, recent)
          | inr (_, _, one, _, _) ↦ absurd (omega arith)
        ]

  -- On a sound table without an open alert of the channel and level, for an event whose window is positive
  -- and begins no earlier than the year 1, a resolved alert that ended within the window keeps a new one from being
  -- made: the call reopens the one that ended last, starting now, and reports a new alarm. The row keeps its
  -- key, and the user who had resolved it stays in it.
  pub trigger_alert_reopens :
      (c : ℕ) (event : TriggerEvent Float) (ts : ℕ) (t : AlertTable Float) (b : Alert Float)
      → IsSound t
      → open_count c event.level t ≡ 0
      → 0 < event.suppress_seconds
      → event.suppress_seconds * 1000000 ≤ ts
      → get alert_id b.id t.rows ≡ some b
      → is_recent c event.level (ts - event.suppress_seconds * 1000000) b ≡ true
      → (a : Alert Float) × (get alert_id a.id t.rows ≡ some a)
        × (end_of b.ended_at ≤ end_of a.ended_at)
        × (trigger_alert floats c event ts t
            ≡ (ok (reopened event ts a, true), written (reopened event ts a) t))
        × ((reopened event ts a).resolved_by ≡ a.resolved_by)
  trigger_alert_reopens c event ts t b s n pos fits g p =
      let since = ts - event.suppress_seconds * 1000000 in
      let (a, e, last) =
        latest_last (is_recent c event.level since) t.rows b
          (is_recent-EndedOnly c event.level since) g p in
      let reached : ltb ts (event.suppress_seconds * 1000000) ≡ false = ground (arith, fits) in
      let recent : recent_alert floats c event ts t ≡ ok (some a) =
        unfold recent_alert in rw (lt→ltb 0 event.suppress_seconds pos, reached, e) refl in
      let (m, r, found) = recent_found floats c event ts t a s recent in
      (a, found, last, trigger_recent c event ts t a s n recent, refl)
