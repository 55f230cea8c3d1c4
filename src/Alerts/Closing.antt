-- ===== src/Alerts/Closing.antt =====
-- `close_open_alerts` and `acknowledge_alert`.
use zhiwei_backend.Prelude.{
  ℕ, ◌+◌, ◌≤◌, ◌≡◌, refl, sym, ◌∙◌, true, false, Option, none, some, String, arith, subst, inl, inr,
  Option-cases, Bool-cases, ◌⊎◌, ==_self, if◌then◌else◌, Result, ok, err, biz_exception,
}
use zhiwei_backend.Prelude.Rows.{get}
use zhiwei_backend.Prelude.Rows.Laws.{bit, get-id, get-put, one_or_none-cases}
use zhiwei_backend.Alerts.Table.{Alert, AlertTable, alert_id, is_open, matches}
use zhiwei_backend.Alerts.Service.{
  closed, acknowledged, close_with, close_open_alerts, get_alert, acknowledge_alert,
}
use zhiwei_backend.Alerts.Invariant.{
  IsSound, open_count, same_key, written, written_count, written-IsSound,
}
use zhiwei_backend.Alerts.Keys.{open_count_key, is_open-matches, bit_open}

module _ {Float : Type 0} where
  -- What closing the alerts of a channel and level has done: the open alert, if there was one, came
  -- back resolved at the time given; none of this channel and level is open, and of any other as
  -- many as before.
  pub record IsClosed (c : ℕ) (l : String) (ts : ℕ) (t : AlertTable Float)
      (out : Result (Option (Alert Float)) × AlertTable Float) : Type 0 where
    pub returned :
        ((out.0 ≡ ok none) × (open_count c l t ≡ 0) × (out.1 ≡ t))
        ⊎ ((a : Alert Float) × (out.0 ≡ ok (some (closed ts a)))
            × (is_open c l a ≡ true)
            × (get alert_id a.id t.rows ≡ some a)
            × (get alert_id a.id out.1.rows ≡ some (closed ts a)))
    pub counts :
        (d : ℕ) (m : String)
        → open_count d m out.1 ≡ (if same_key c l d m then 0 else open_count d m t)
    pub sound : IsSound out.1

  at_most_none :
      (c : ℕ) (l : String) (t : AlertTable Float) (n : ℕ → String → ℕ)
      → IsSound t
      → ((d : ℕ) (m : String) → n d m ≡ (if same_key c l d m then 0 else open_count d m t))
      → (d : ℕ) (m : String) → n d m ≤ 1
  at_most_none c l t n s e d m = ground (arith, e d m, s.single d m)

  close_none :
      (c : ℕ) (l : String) (ts : ℕ) (t : AlertTable Float)
      → IsSound t
      → open_count c l t ≡ 0
      → IsClosed c l ts t (close_with ts none t)
  unfolding close_with
  close_none c l ts t s n = record {
    returned = inl (refl, n, refl);
    counts = λ d m. ground (arith, open_count_key c d l m t);
    sound = s;
  }

  close_some :
      (c : ℕ) (l : String) (ts : ℕ) (t : AlertTable Float) (a : Alert Float)
      → IsSound t
      → open_count c l t ≡ 1
      → is_open c l a ≡ true
      → get alert_id a.id t.rows ≡ some a
      → IsClosed c l ts t (close_with ts (some a) t)
  unfolding close_with
  close_some c l ts t a s n p e =
      let a' = closed ts a in
      let (match_a, unresolved) = is_open-matches c l a p in
      let counts : (d : ℕ) (m : String)
          → open_count d m (written a' t) ≡ (if same_key c l d m then 0 else open_count d m t) =
        λ d m. ground (
          arith,
          written_count a' a t d m s e,
          bit_open c d l m a match_a,
          bit_open c d l m a' match_a,
          open_count_key c d l m t,
        ) in
      record {
        returned = inr (a, refl, p, e, get-put alert_id a.id a' a t.rows e ∙ rw ==_self);
        counts = counts;
        sound =
            written-IsSound a' a t s e
              (at_most_none c l t (λ d m. open_count d m (written a' t)) s counts);
      }

  -- On a sound table `close_open_alerts` raises nothing. Without an open alert of the channel and level
  -- it returns none and changes nothing; else it returns this alert, resolved at the time given, and
  -- stores it. None of this channel and level is open then, of any other as many as before, and the
  -- table is sound.
  pub close_open_alerts-IsClosed :
      (c : ℕ) (l : String) (ts : ℕ) (t : AlertTable Float)
      → IsSound t
      → IsClosed c l ts t (close_open_alerts c l ts t)
  unfolding close_open_alerts
  close_open_alerts-IsClosed c l ts t s =
      elim (one_or_none-cases alert_id (is_open c l) t.rows s.distinct (s.single c l)) [
        | inl (e, n) ↦ rw e (close_none c l ts t s n)
        | inr (a, e, n, p, g) ↦ rw e (close_some c l ts t a s n p g)
      ]

  -- What an acknowledgement has done: an alert that is not there, or is resolved already, is refused
  -- and the table is as before; any other is stored as resolved by the user, with its end set to now
  -- unless it had one, and no open alert of another key is lost.
  pub IsAcknowledged :
      ℕ → ℕ → ℕ → AlertTable Float → Result (Alert Float) × AlertTable Float → Type 0
  IsAcknowledged now i user_id t out =
      ((get alert_id i t.rows ≡ none)
        × (out ≡ (err (biz_exception "ALERT_NOT_FOUND" "告警不存在" 404), t)))
      ⊎ ((a : Alert Float) × (get alert_id i t.rows ≡ some a)
          × (((a.is_resolved ≡ true)
                × (out ≡ (err (biz_exception "ALERT_ALREADY_RESOLVED" "告警已确认" 409), t)))
              ⊎ ((a.is_resolved ≡ false)
                  × (out.0 ≡ ok (acknowledged user_id now a))
                  × (get alert_id i out.1.rows ≡ some (acknowledged user_id now a))
                  × ((d : ℕ) (m : String)
                      → open_count d m out.1 + bit (matches d m a) ≡ open_count d m t)
                  × IsSound out.1)))

  acknowledge_open :
      (now i user_id : ℕ) (t : AlertTable Float) (a : Alert Float)
      → IsSound t
      → get alert_id a.id t.rows ≡ some a
      → a.is_resolved ≡ false
      → let t' = written (acknowledged user_id now a) t in
        ((d : ℕ) (m : String) → open_count d m t' + bit (matches d m a) ≡ open_count d m t)
        × IsSound t'
  acknowledge_open now i user_id t a s e r =
      let a' = acknowledged user_id now a in
      let counts : (d : ℕ) (m : String)
          → open_count d m (written a' t) + bit (matches d m a) ≡ open_count d m t =
        λ d m. ground (arith, written_count a' a t d m s e) in
      (counts, written-IsSound a' a t s e (λ d m. omega (arith, counts d m, s.single d m)))

  -- On a sound table an acknowledgement of a missing alert raises ALERT_NOT_FOUND and that of a resolved
  -- one ALERT_ALREADY_RESOLVED, and neither changes the table. Any other stores the alert as resolved by
  -- the user, with its end set to now unless it had one; the table stays sound and no count of open
  -- alerts grows.
  pub acknowledge_alert-IsAcknowledged :
      (now i user_id : ℕ) (t : AlertTable Float)
      → IsSound t
      → IsAcknowledged now i user_id t (acknowledge_alert now i user_id t)
  unfolding acknowledge_alert get_alert IsAcknowledged
  acknowledge_alert-IsAcknowledged now i user_id t s = elim (Option-cases (get alert_id i t.rows)) [
    | inl e ↦ inl (e, rw e)
    | inr (a, e) ↦ elim (Bool-cases a.is_resolved) [
      | inl r ↦ inr (a, e, inl (r, rw (e, r)))
      | inr r ↦
          let same : a.id ≡ i = get-id alert_id i t.rows a e in
          let found : get alert_id a.id t.rows ≡ some a =
            subst (λ (k : ℕ). get alert_id k t.rows ≡ some a) (sym same) e in
          let (counts, sound) = acknowledge_open now i user_id t a s found r in
          inr (
            a,
            e,
            inr (
              r,
              rw (e, r),
              rw (e, r)
                  (get-put alert_id i (acknowledged user_id now a) a t.rows found
                    ∙ rw (same, ==_self)),
              rw (e, r) counts,
              rw (e, r) sound,
            ),
          )
    ]
  ]
