-- ===== src/Alerts/Batch.antt =====
-- A batch of readings, whatever channels they are of.
use zhiwei_backend.Prelude.{
  ℕ, ◌≡◌, inl, inr, ◌==◌, Bool-cases, refl, List, [], ◌∷◌, Option, none, some, Result, ok, Done,
}
use zhiwei_backend.Prelude.Floats.{Floats}
use zhiwei_backend.Alerts.Rules.{Rule}
use zhiwei_backend.Alerts.Invariant.{IsSound}
use zhiwei_backend.Alerts.Task.{
  Pipeline, CheckedReading, ChannelMeta, process_reading, process_readings, process_value,
  lookup_meta, with_rules, or_empty,
}
use zhiwei_backend.Alerts.Windows.{RulesFit}
use zhiwei_backend.Alerts.Processing.{check_reading-Leaves}

-- The windows of the rules of every channel begin no earlier than the year 1, for a reading of this time.
abbrev pub MetaFits : {Float : Type 0} → ℕ → List (ChannelMeta Float) → Type 0
MetaFits ts [] = Unit
MetaFits ts (row ∷ rows) = RulesFit ts (or_empty row.alert_rules) × MetaFits ts rows

-- Every message of the batch has a time that can be read, at which all windows fit.
abbrev pub AllParse :
    {Float : Type 0} → List (ChannelMeta Float) → List (CheckedReading Float) → Type 0
AllParse meta [] = Unit
AllParse meta (reading ∷ readings) =
    ((ts : ℕ) × (reading.timestamp ≡ ok ts) × MetaFits ts meta) × AllParse meta readings

module _ (floats : Floats) where
  open floats use {Float}

  -- A step that returned and left a sound table.
  pub record Returns (out : Result Done × Pipeline Float) : Type 0 where
    pub returned : out.0 ≡ ok tt
    pub sound : IsSound out.1.alerts

  with_rules-Returns :
      (cid ts : ℕ) (reading : CheckedReading Float) (value : Float)
      (found : List (Rule Float) × Option ℕ) (s : Pipeline Float)
      → IsSound s.alerts
      → reading.timestamp ≡ ok ts
      → RulesFit ts found.0
      → Returns (with_rules floats cid reading value found s)
  with_rules-Returns cid ts reading value (rules, none) s h parsed fits = record {
    returned = refl;
    sound = h;
  }
  with_rules-Returns cid ts reading value ([], some project) s h parsed fits = record {
    returned = refl;
    sound = h;
  }
  with_rules-Returns cid ts reading value (rule ∷ rules, some project) s h parsed fits =
      let left =
        check_reading-Leaves floats project cid ts (rule ∷ rules) reading value s h parsed fits in
      record { returned = left.returned; sound = left.sound }

  lookup_meta-RulesFit :
      (cid ts : ℕ) (meta : List (ChannelMeta Float))
      → MetaFits ts meta
      → RulesFit ts (lookup_meta cid meta).0
  unfolding lookup_meta
  lookup_meta-RulesFit cid ts [] fits = tt
  lookup_meta-RulesFit cid ts (row ∷ rows) fits = elim (Bool-cases (row.channel_id == cid)) [
    | inl e ↦ rw e fits.0
    | inr e ↦ rw e (lookup_meta-RulesFit cid ts rows fits.1)
  ]

  process_value-Returns :
      (meta : List (ChannelMeta Float)) (ts : ℕ) (reading : CheckedReading Float) (c : Option ℕ)
      (v : Option Float) (s : Pipeline Float)
      → IsSound s.alerts
      → reading.timestamp ≡ ok ts
      → MetaFits ts meta
      → Returns (process_value floats meta reading c v s)
  process_value-Returns meta ts reading none v s h parsed fits = record {
    returned = refl;
    sound = h;
  }
  process_value-Returns meta ts reading (some cid) none s h parsed fits = record {
    returned = refl;
    sound = h;
  }
  process_value-Returns meta ts reading (some cid) (some value) s h parsed fits =
      with_rules-Returns cid ts reading value (lookup_meta cid meta) s h parsed
        (lookup_meta-RulesFit cid ts meta fits)

  -- On a sound table, for any rows of channels and devices, a batch whose times can all be read and are late
  -- enough for the suppression windows of all rules to begin no earlier than the year 1 is processed to its end:
  -- no query or write of the alerts raises an exception, and the table it leaves is sound, so a channel has at
  -- most one open alert of a level.
  pub process_readings-Returns :
      (meta : List (ChannelMeta Float)) (readings : List (CheckedReading Float))
      (s : Pipeline Float)
      → IsSound s.alerts
      → AllParse meta readings
      → Returns (process_readings floats meta readings s)
  unfolding process_readings process_reading
  process_readings-Returns meta [] s h parsed = record { returned = refl; sound = h }
  process_readings-Returns meta (reading ∷ readings) s h ((ts, e, fits), parsed) =
      let first =
        process_value-Returns meta ts reading reading.channel_id reading.value s h e fits in
      rw first.returned (
        process_readings-Returns meta readings
          (process_value floats meta reading reading.channel_id reading.value s).1 first.sound
          parsed)
