-- ===== src/Ingest/Tests.antt =====
-- A batch with a known and an unknown code.
use zhiwei_backend.Prelude.{ℕ, true, false, some, List, [], ◌∷◌, ok}
use zhiwei_backend.Ingest.Service.{ReadingIn, CodeRow, Sink, batch_ingest}
use zhiwei_backend.Ingest.Latest.{IsIngested, copied, batch_ingest-IsIngested}

abbrev codes : List CodeRow
codes = record { device_code = "D"; channel_code = "C"; channel_id = 7; project_id = 1 } ∷ []

abbrev known : ReadingIn ℕ
known = record {
  device_code = "D";
  channel_code = "C";
  timestamp = 5;
  value = 20;
  unit = "";
  quality = "good";
}

abbrev unknown : ReadingIn ℕ
unknown = record known { channel_code = "X" }

abbrev sink : Sink ℕ
sink = record { readings = []; latest = []; published = []; dispatched = [] }

batch_ingest-IsIngested_example :
    IsIngested codes
      (some ((true, false) ∷ []))
      (ok tt)
      (unknown ∷ known ∷ [])
      sink
      (batch_ingest codes (copied (some ((true, false) ∷ [])) (ok tt)) (unknown ∷ known ∷ []) sink)
batch_ingest-IsIngested_example =
    batch_ingest-IsIngested codes (some ((true, false) ∷ [])) (ok tt) (unknown ∷ known ∷ []) sink
