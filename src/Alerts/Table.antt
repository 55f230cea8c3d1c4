-- ===== src/Alerts/Table.antt =====
-- The table of app/models/alert.py and the queries on it.
use zhiwei_backend.Prelude.{
  ℕ, Bool, false, not, ◌&&◌, List, [], ◌∷◌, Option, none, some, String, str_eq, ltb, leb, ◌==◌,
  if◌then◌else◌,
}

pub record Alert (Float : Type 0) : Type 0 where
  pub id : ℕ
  pub channel_id : ℕ
  pub alert_type : Option String
  pub level : Option String
  pub message : Option String
  pub value : Option Float
  pub threshold : Option Float
  pub started_at : ℕ
  pub ended_at : Option ℕ
  pub is_resolved : Bool
  pub resolved_by : Option ℕ

-- `next_id` is the sequence of the primary key.
pub record AlertTable (Float : Type 0) : Type 0 where
  pub rows : List (Alert Float)
  pub next_id : ℕ

-- `Alert.level == level`, which is not true of NULL
abbrev pub level_is : Option String → String → Bool
level_is none level = false
level_is (some l) level = str_eq l level

-- `Alert.ended_at.is_not(None), Alert.ended_at >= threshold_ts`
abbrev pub ended_since : Option ℕ → ℕ → Bool
ended_since none threshold_ts = false
ended_since (some t) threshold_ts = leb threshold_ts t

abbrev pub ended_before : Option ℕ → Option ℕ → Bool
ended_before (some t) (some u) = ltb t u
ended_before _ _ = false

module _ {Float : Type 0} where
  abbrev pub matches : ℕ → String → Alert Float → Bool
  matches channel_id level a = (a.channel_id == channel_id) && level_is a.level level

  -- the `where` of the query for the open alert
  abbrev pub is_open : ℕ → String → Alert Float → Bool
  is_open channel_id level a = matches channel_id level a && not a.is_resolved

  -- the `where` of the query for a recent one
  abbrev pub is_recent : ℕ → String → ℕ → Alert Float → Bool
  is_recent channel_id level threshold_ts a =
      matches channel_id level a && (a.is_resolved && ended_since a.ended_at threshold_ts)

  -- `.order_by(Alert.ended_at.desc()).limit(1)`; of equal times the first row is taken
  unfoldable pub latest : List (Alert Float) → Option (Alert Float)
  latest [] = none
  latest (a ∷ rows) = elim (latest rows) [
    | none ↦ some a
    | some b ↦ if ended_before a.ended_at b.ended_at then some b else some a
  ]

abbrev pub alert_id : {Float : Type 0} → Alert Float → ℕ
alert_id a = a.id
