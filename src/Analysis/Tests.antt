-- ===== src/Analysis/Tests.antt =====
-- A job that a worker takes on.
use zhiwei_backend.Prelude.{
  ℕ, ◌≡◌, refl, true, false, List, [], ◌∷◌, none, some, String, str_eq, eq_iff, Exception, Result,
  Option, ◌⊎◌, ◌==◌, ok, err, if◌then◌else◌,
}
use zhiwei_backend.Storage.{S3, Stores, put_bytes}
use zhiwei_backend.Users.Table.{User}
use zhiwei_backend.Access.Guards.{check_project_access}
use zhiwei_backend.Inventory.Records.{Device, Sensor, Channel}
use zhiwei_backend.Analysis.Jobs.{AnalysisJob, mark_running, cancel_job, new_job}
use zhiwei_backend.Analysis.Transitions.{status_at}
use zhiwei_backend.Analysis.Plugins.{Data, AnalysisInput, AnalysisOutput, AnalysisPlugin, Worker}
use zhiwei_backend.Analysis.Samples.{
  Site, ready, prepare, fetch_data, fetch_samples, resolve_channels,
}
use zhiwei_backend.Analysis.Run.{World, Moment, Report, Session, working, run, result_key}
use zhiwei_backend.Analysis.Agreement.{Agrees}
use zhiwei_backend.Analysis.Cancellation.{cancelling, is_success, run-Agrees_guards}
use zhiwei_backend.Analysis.Task.{run_analysis_job}
use zhiwei_backend.Analysis.LostCancellation.{jobs_computing, run-mark_failed}
use zhiwei_backend.Analysis.Retries.{IsRefusal, undisturbed, run_analysis_job-StaysRunning}
use zhiwei_backend.Analysis.Requests.{get_job_result}
use zhiwei_backend.Analysis.RoundTrip.{Computes, run-get_job_result}

-- A plugin that answers the bytes 7, 8, a store that keeps whatever it is given, and one that keeps
-- nothing.
abbrev output : AnalysisOutput ℕ
output = record { summary = 3; artifact = some (7 ∷ 8 ∷ []); artifact_name = "fft.npz" }

abbrev plugin : AnalysisPlugin ℕ ℕ
plugin = record { input_channels = 1; min_samples = 1; analyze = λ input params. ok output }

abbrev worker : Worker ℕ ℕ
worker = record {
  analyzer = λ name. some plugin;
  channel_ids = λ params. [];
  start = λ params. none;
  end_of = λ params. none;
  bind_time = λ time. err Exception.type_error;
  str_exception = λ e. 69 ∷ [];
  str_int = λ n. "1";
}

-- A plugin that raises on any input.
abbrev raising : AnalysisPlugin ℕ ℕ
raising = record plugin { analyze = λ input params. err Exception.value_error }

abbrev failing_worker : Worker ℕ ℕ
failing_worker = record worker { analyzer = λ name. some raising }

abbrev Objects : Type 0
Objects = List (String × List ℕ)

abbrev find_object : String → Objects → Result (List ℕ)
find_object key [] = err Exception.key_error
find_object key ((k, body) ∷ objects) = if str_eq k key then ok body else find_object key objects

abbrev bucket : S3 Objects
bucket = record {
  put_object = λ key body s. (ok tt, (key, body) ∷ s);
  get_object = λ key s. (find_object key s, s);
  delete_object = λ key s. (ok tt, s);
}

bucket-Stores : Stores bucket
bucket-Stores = record { got = λ key body s h. rw (eq_self key) refl }
  where
    eq_self : (key : String) → str_eq key key ≡ true
    eq_self key = (eq_iff key key).1 refl

abbrev broken : S3 Objects
broken = record {
  put_object = λ key body s. (err Exception.connection_error, s);
  get_object = λ key s. (find_object key s, s);
  delete_object = λ key s. (ok tt, s);
}

abbrev channel : Channel ℕ
channel = record {
  id = 7;
  sensor_id = 4;
  channel_code = "X";
  channel_type = none;
  unit = none;
  sampling_rate = 50;
  position_offset = none;
  axis = none;
  alert_rules = none;
  is_active = true;
  note = none;
}

abbrev sensor : Sensor ℕ
sensor = record {
  id = 4;
  device_id = 3;
  sensor_code = "S";
  sensor_name = none;
  sensor_type = none;
  model = none;
  manufacturer = none;
  install_date = none;
  last_calibration = none;
  position = none;
  is_active = true;
  note = none;
  metadata = none;
}

abbrev device : Device ℕ
device = record {
  id = 3;
  project_id = 2;
  device_code = "D";
  device_name = none;
  protocol = "mqtt";
  config = some 0;
  status = "online";
  last_seen = none;
  note = none;
}

abbrev site : Site ℕ ℕ
site = record {
  inventory = record {
    projects = record { rows = []; next_id = 3 };
    devices = record { rows = device ∷ []; next_id = 4 };
    sensors = record { rows = sensor ∷ []; next_id = 5 };
    channels = record { rows = channel ∷ []; next_id = 8 };
    links = record { user_id = 5; project_id = 2; permission = "read" } ∷ [];
  };
  readings = record { channel_id = 7; time = 100; value = 1 } ∷ [];
}

abbrev waiting : AnalysisJob ℕ
waiting = new_job 7 "fft" 0 none 1

abbrev world : World ℕ Objects
world = record { jobs = record { rows = waiting ∷ []; next_id = 2 }; store = [] }

abbrev reader : User
reader = record {
  id = 5;
  username = "reader";
  email = "r@a";
  hashed_password = "x";
  role = "user";
  is_active = true;
}

run-cancelled :
    (run worker bucket site working (cancelling Moment.computing 9 1) 9 1 world).0
    ≡ ok (Report.cancelled "revoked_after_finish")
unfolding run prepare fetch_data fetch_samples resolve_channels mark_running cancel_job
run-cancelled = refl

run-Agrees_guards_example :
    Agrees 1 (run worker bucket site working undisturbed 9 1 world)
    × Agrees 1 (run worker bucket site working (cancelling Moment.uploading 10 1) 9 1 world)
    × (is_success (run worker bucket site working (cancelling Moment.uploading 10 1) 9 1 world).0
        ≡ false)
run-Agrees_guards_example =
    run-Agrees_guards worker bucket site working 9 undisturbed Moment.uploading 10 1 world

run-broken :
    (run worker broken site working undisturbed 9 1 world).0 ≡ err Exception.connection_error
unfolding run prepare fetch_data fetch_samples resolve_channels mark_running put_bytes
run-broken = refl

-- The database fails every session of the retries.
abbrev lost : ℕ → Session → Option Exception
lost n s = if n == 2 then none else some Exception.connection_error

run_analysis_job-StaysRunning_example :
    let w' = (run worker broken site (lost 2) undisturbed 9 1 world).1 in
    (w' ≡ world)
    ⊎ ((status_at 1 w'.jobs ≡ some "running")
        × ((x : Exception) × (run_analysis_job worker broken site lost
                (λ n. undisturbed)
                (λ n. 9)
                1
                world
              ≡ (err x, w'))
            × IsRefusal (lost 0) x))
run_analysis_job-StaysRunning_example =
    run_analysis_job-StaysRunning worker broken site lost (λ n. 9) 1 Exception.connection_error
      world refl run-broken

abbrev input : AnalysisInput ℕ
input = record {
  channel_ids = 7 ∷ [];
  time_range = ("", "");
  sampling_rate = 50;
  samples = Data.series (1 ∷ []);
}

waiting-Computes : Computes worker bucket site 9 1 waiting output (7 ∷ 8 ∷ []) world
unfolding prepare fetch_data fetch_samples resolve_channels put_bytes
waiting-Computes = record {
  found = refl;
  pending = refl;
  plugin = plugin;
  input = input;
  is_ready = refl;
  analyzed = refl;
  has_artifact = refl;
  kept = refl;
}

raising_prepared : prepare failing_worker site waiting ≡ ok (ready raising input)
unfolding prepare fetch_data fetch_samples resolve_channels
raising_prepared = refl

run-mark_failed_example :
    let out = run failing_worker bucket site working (cancelling Moment.computing 9 1) 8 1 world in
    let (answer, jobs) =
      cancel_job 9 1 (jobs_computing failing_worker bucket site 8 1 waiting world) in
    (answer ≡ ok "running")
    × (status_at 1 jobs ≡ some "cancelled")
    × (out.0 ≡ ok (Report.failed_with (69 ∷ [])))
    × (status_at 1 out.1.jobs ≡ some "failed")
run-mark_failed_example =
    run-mark_failed failing_worker bucket site 8 9 1 waiting raising input Exception.value_error
      world refl refl raising_prepared refl

reader_may : check_project_access reader 2 site.inventory.links ≡ ok tt
unfolding check_project_access
reader_may = refl

run-get_job_result_example :
    let out = run worker bucket site working undisturbed 9 1 world in
    (out.0
      ≡ ok
          (Report.success (some (result_key worker bucket site working undisturbed 9 1 "fft.npz"))))
    × ((get_job_result bucket site.inventory reader 1 out.1).0 ≡ ok (7 ∷ 8 ∷ []))
run-get_job_result_example =
    run-get_job_result worker bucket site 9 1 waiting output (7 ∷ 8 ∷ []) world reader channel 2
      bucket-Stores waiting-Computes refl refl reader_may
