-- ===== src/Analysis/Plugins.antt =====
-- The contract of app/plugins/analyzers/base.py, and what the worker of app/tasks/analysis_tasks.py asks
-- of the libraries around it.
use zhiwei_backend.Prelude.{ℕ, List, Option, String, Exception, Result}

-- One series, or one by channel.
pub data Data (Float : Type 0) : Type 0 where
  series : List Float → Data Float
  series_by_channel : List (ℕ × List Float) → Data Float

pub record AnalysisInput (Float : Type 0) : Type 0 where
  pub channel_ids : List ℕ
  pub time_range : String × String
  pub sampling_rate : ℕ
  pub samples : Data Float

pub record AnalysisOutput (Json : Type 0) : Type 0 where
  pub summary : Json
  pub artifact : Option (List ℕ)
  pub artifact_name : String

pub record AnalysisPlugin (Json Float : Type 0) : Type 0 where
  pub input_channels : ℕ
  pub min_samples : ℕ
  pub analyze : AnalysisInput Float → Json → Result (AnalysisOutput Json)

-- `AnalyzerRegistry.get`, the entries of the object `params`, the argument that asyncpg makes of a text
-- for a time (or refuses to), and `str` of an exception and of a number.
pub record Worker (Json Float : Type 0) : Type 0 where
  pub analyzer : String → Option (AnalysisPlugin Json Float)
  pub channel_ids : Json → List ℕ
  pub start : Json → Option String
  pub end_of : Json → Option String
  pub bind_time : String → Result ℕ
  pub str_exception : Exception → List ℕ
  pub str_int : ℕ → String
