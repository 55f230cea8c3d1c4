-- ===== src/Analysis/Samples.antt =====
-- What a job of app/tasks/analysis_tasks.py reads before it computes: the channels and their samples.
use zhiwei_backend.Prelude.{
  ◌⊎◌, inl, inr, ℕ, Bool, true, false, not, ◌&&◌, ◌||◌, ltb, leb, ◌==◌, List, [], ◌∷◌, ◌++◌, map,
  length, Option, none, some, String, str_eq, Exception, Result, ok, err, then_result,
  if◌then◌else◌,
}
use Prim.Native.String.{◌++◌ as str_append}
use zhiwei_backend.Prelude.Rows.{select, get}
use zhiwei_backend.Prelude.Rows.Pages.{order_by}
use zhiwei_backend.Inventory.Records.{Device, Sensor, Channel, Inventory, sensor_key, device_key}
use zhiwei_backend.Analysis.Jobs.{AnalysisJob}
use zhiwei_backend.Analysis.Plugins.{Data, AnalysisInput, AnalysisPlugin, Worker}

-- a row of `readings`
pub record Sample (Float : Type 0) : Type 0 where
  pub channel_id : ℕ
  pub time : ℕ
  pub value : Float

-- the tables that a job reads
pub record Site (Json Float : Type 0) : Type 0 where
  pub inventory : Inventory Json
  pub readings : List (Sample Float)

-- The channels of a job and their project, or the text of a ValueError.
pub data Resolved (Json : Type 0) : Type 0 where
  resolved : List (Channel Json) → ℕ → Resolved Json
  value_error : String → Resolved Json

-- A job that is refused with an error and a reason, or one that can be computed.
pub data Prepared (Json Float : Type 0) : Type 0 where
  refused : String → String → Prepared Json Float
  ready : AnalysisPlugin Json Float → AnalysisInput Float → Prepared Json Float

abbrev pub elem : ℕ → List ℕ → Bool
elem i [] = false
elem i (j ∷ js) = (j == i) || elem i js

-- a text that is there and not empty
abbrev pub given : Option String → Option String
given none = none
given (some s) = if str_eq s "" then none else some s

abbrev pub text_or_empty : Option String → String
text_or_empty none = ""
text_or_empty (some s) = s

-- `params.get("channel_ids") or [channel_id]`
abbrev pub or_own : List ℕ → ℕ → List ℕ
or_own [] channel = channel ∷ []
or_own (i ∷ is) channel = i ∷ is

abbrev pub first_of : List ℕ → Result ℕ
first_of [] = err Exception.index_error
first_of (c ∷ cs) = ok c

module _ {Json : Type 0} where
  abbrev pub device_of : Option (Sensor Json) → List (Device Json) → Option (Device Json)
  device_of none devices = none
  device_of (some x) devices = get device_key x.device_id devices

  abbrev pub project_of : Option (Device Json) → Option ℕ
  project_of none = none
  project_of (some d) = some d.project_id

  -- the two joins
  abbrev pub channel_project : Inventory Json → Channel Json → Option ℕ
  channel_project s c =
      project_of (device_of (get sensor_key c.sensor_id s.sensors.rows) s.devices.rows)

  abbrev pub joined :
      Bool → Option ℕ → Channel Json → List (Channel Json × ℕ) → List (Channel Json × ℕ)
  joined true (some p) c rows = (c, p) ∷ rows
  joined true none c rows = rows
  joined false p c rows = rows

  abbrev pub channels_of : List ℕ → Inventory Json → List (Channel Json) → List (Channel Json × ℕ)
  channels_of ids s [] = []
  channels_of ids s (c ∷ cs) = joined (elem c.id ids) (channel_project s c) c (channels_of ids s cs)

  abbrev pub has_other : ℕ → List (Channel Json × ℕ) → Bool
  has_other p [] = false
  has_other p (row ∷ rows) = not (row.1 == p) || has_other p rows

  abbrev pub one_project : List (Channel Json × ℕ) → Result (Resolved Json)
  one_project [] = err Exception.key_error
  one_project (row ∷ rows) =
      if has_other row.1 rows
      then ok (Resolved.value_error "多通道分析要求所有通道属于同一子项")
      else ok (Resolved.resolved (map (λ (r : Channel Json × ℕ). r.0) (row ∷ rows)) row.1)

  unfoldable pub resolve_channels : Inventory Json → List ℕ → Result (Resolved Json)
  resolve_channels s ids =
      let rows = channels_of ids s s.channels.rows in
      if length rows == length ids then one_project rows else ok (Resolved.value_error "通道不存在")

  -- `float(channels[0].sampling_rate or 1.0)`
  abbrev pub rate_of : List (Channel Json) → Result ℕ
  rate_of [] = err Exception.index_error
  rate_of (c ∷ cs) = ok (if c.sampling_rate == 0 then 1 else c.sampling_rate)

module _ {Float : Type 0} where
  abbrev pub sample_time : Sample Float → ℕ
  sample_time r = r.time

  abbrev pub sample_value : Sample Float → Float
  sample_value r = r.value

  abbrev pub is_sample_of : ℕ → Sample Float → Bool
  is_sample_of channel r = r.channel_id == channel

  abbrev pub is_between : ℕ → ℕ → ℕ → Sample Float → Bool
  is_between channel from to r = is_sample_of channel r && (leb from r.time && leb r.time to)

  abbrev pub values : (Sample Float → Bool) → List (Sample Float) → List Float
  values test readings = map sample_value (order_by sample_time (select test readings))

module _ {Json Float : Type 0} (worker : Worker Json Float) where
  open worker use {analyzer, channel_ids, start, end_of, bind_time, str_int}

  abbrev pub samples_between :
      List (Sample Float) → ℕ → Option String → Option String → Result (List Float)
  samples_between readings channel (some from) (some to) =
      then_result (bind_time from)
        (λ a. then_result (bind_time to) (λ b. ok (values (is_between channel a b) readings)))
  samples_between readings channel none to = ok (values (is_sample_of channel) readings)
  samples_between readings channel (some from) none = ok (values (is_sample_of channel) readings)

  unfoldable pub fetch_samples :
      List (Sample Float) → ℕ → Option String → Option String → Result (List Float)
  fetch_samples readings channel from to = samples_between readings channel (given from) (given to)

  abbrev pub few_samples : String → ℕ → ℕ → String
  few_samples prefix size least =
      str_append prefix
        (str_append "样本数不足: " (str_append (str_int size) (str_append " < " (str_int least))))

  abbrev pub count_mismatch : String → ℕ → ℕ → String
  count_mismatch name needed received = str_append "插件 " (
      str_append name (
        str_append " 需要 " (str_append (str_int needed) (str_append " 个通道，收到 " (str_int received)))))

  -- The samples of several channels, up to the first that has too few.
  abbrev pub fetch_all :
      List (Sample Float)
      → ℕ
      → Option String
      → Option String
      → List ℕ
      → List (ℕ × List Float)
      → Result (String ⊎ List (ℕ × List Float))
  fetch_all readings least from to [] fetched = ok (inr fetched)
  fetch_all readings least from to (c ∷ cs) fetched =
      let rest : List Float → Result (String ⊎ List (ℕ × List Float)) =
        λ samples. fetch_all readings least from to cs (fetched ++ (c, samples) ∷ []) in
      then_result (fetch_samples readings c from to) (λ samples.
        if ltb (length samples) least
        then ok (
            inl
              (few_samples (str_append "通道 " (str_append (str_int c) " ")) (length samples) least))
        else rest samples)

  abbrev pub of_several : String ⊎ List (ℕ × List Float) → String ⊎ Data Float
  of_several (inl error) = inl error
  of_several (inr fetched) = inr (Data.series_by_channel fetched)

  abbrev pub one_series : ℕ → List Float → String ⊎ Data Float
  one_series least samples =
      if ltb (length samples) least
      then inl (few_samples "" (length samples) least)
      else inr (Data.series samples)

  -- the data of a plugin of one channel, or of several
  unfoldable pub fetch_data :
      List (Sample Float) → AnalysisPlugin Json Float → Json → List ℕ → Result (String ⊎ Data Float)
  fetch_data readings plugin params ids =
      if plugin.input_channels == 1
      then then_result (first_of ids) (λ c.
        then_result (fetch_samples readings c (start params) (end_of params))
          (λ samples. ok (one_series plugin.min_samples samples)))
      else then_result (fetch_all readings plugin.min_samples (start params) (end_of params) ids [])
          (λ fetched. ok (of_several fetched))

  abbrev pub prepared :
      AnalysisPlugin Json Float → Json → List ℕ → ℕ → String ⊎ Data Float → Prepared Json Float
  prepared plugin params ids rate (inl error) = Prepared.refused error "insufficient_samples"
  prepared plugin params ids rate (inr samples) = Prepared.ready plugin (record {
    channel_ids = ids;
    time_range = (text_or_empty (start params), text_or_empty (end_of params));
    sampling_rate = rate;
    samples = samples;
  })

  abbrev pub with_channels :
      Site Json Float
      → AnalysisPlugin Json Float
      → Json
      → List ℕ
      → Resolved Json
      → Result (Prepared Json Float)
  with_channels site plugin params ids (value_error error) =
      ok (Prepared.refused error "bad_channels")
  with_channels site plugin params ids (resolved channels project) =
      then_result (rate_of channels) (λ rate.
        then_result (fetch_data site.readings plugin params ids)
          (λ fetched. ok (prepared plugin params ids rate fetched)))

  abbrev pub with_plugin :
      Site Json Float
      → AnalysisJob Json
      → Option (AnalysisPlugin Json Float)
      → Result (Prepared Json Float)
  with_plugin site job none =
      ok (Prepared.refused (str_append "plugin not found: " job.plugin) "plugin_not_found")
  with_plugin site job (some plugin) =
      let ids = or_own (channel_ids job.params) job.channel_id in
      if length ids == plugin.input_channels
      then then_result (resolve_channels site.inventory ids)
          (λ r. with_channels site plugin job.params ids r)
      else ok (
          Prepared.refused (count_mismatch job.plugin plugin.input_channels (length ids))
            "channel_count_mismatch")

  -- The part of `_run` from the lookup of the plugin to the call of it.
  unfoldable pub prepare : Site Json Float → AnalysisJob Json → Result (Prepared Json Float)
  prepare site job = with_plugin site job (analyzer job.plugin)
