-- ===== src/Models/Task.antt =====
-- app/tasks/model_tasks.py: `_run`, `convert_model_task` and `_mark_failed_async`. The name that `uuid4`
-- gives, the texts of exceptions and the clock are arguments.
use zhiwei_backend.Prelude.{
  Done, ℕ, Bool, true, false, if◌then◌else◌, List, String, Action, Exception, Result, ok, err, pure,
  lift, ◌>>=◌, ◌>>◌,
}
use Prim.Native.String.{◌++◌ as str_append}
use zhiwei_backend.Prelude.Rows.Tables.{Table}
use zhiwei_backend.Storage.{S3, put_bytes, get_bytes}
use zhiwei_backend.Models.Service.{Model, get_model, mark_running, mark_success, mark_failed}
use zhiwei_backend.Models.Convert.{Trimesh, convert_bytes}

pub record Gallery (Store : Type 0) : Type 0 where
  pub models : Table Model
  pub store : Store

pub data Report : Type 0 where
  success : String → Report
  failed : List ℕ → Report

-- `except ValueError`
abbrev pub is_value_error : Exception → Bool
is_value_error Exception.value_error = true
is_value_error e = false

module _ {Store : Type 0} where
  abbrev pub with_models :
      {A : Type 0} → Gallery Store → Result A × Table Model → Result A × Gallery Store
  with_models g (r, models) = (r, record g { models = models })

  -- what one session does to the table
  abbrev pub session : {A : Type 0} → Action (Table Model) A → Action (Gallery Store) A
  session m g = with_models g (m g.models)

  abbrev pub with_store : {A : Type 0} → Gallery Store → Result A × Store → Result A × Gallery Store
  with_store g (r, store) = (r, record g { store = store })

  abbrev pub request : {A : Type 0} → Action Store A → Action (Gallery Store) A
  request m g = with_store g (m g.store)

module _ {Scene Store : Type 0} (trimesh : Trimesh Scene) (s3 : S3 Store) (str_int : ℕ → String)
    (str_exception : Exception → List ℕ) (hex : String) (now : ℕ) where
  abbrev pub glb_key_of : ℕ → String
  glb_key_of project =
      str_append "models/" (str_append (str_int project) (str_append "/" (str_append hex ".glb")))

  abbrev pub fail : ℕ → List ℕ → Action (Gallery Store) Report
  fail i error = do session (mark_failed now i error); pure (Report.failed error)

  -- a ValueError is a failure of the model, any other exception one of the task
  abbrev pub finish : ℕ → Model → Result (List ℕ) → Action (Gallery Store) Report
  finish i m (ok glb) = do
    request (put_bytes s3 (glb_key_of m.project_id) glb)
    session (mark_success now i (glb_key_of m.project_id))
    pure (Report.success (glb_key_of m.project_id))
  finish i m (err e) = if is_value_error e then fail i (str_exception e) else lift (err e)

  unfoldable pub run : ℕ → Action (Gallery Store) Report
  run i = do
    m ← session (get_model i)
    session (mark_running i)
    bytes ← request (get_bytes s3 m.original_key)
    finish i m (convert_bytes trimesh bytes m.source_format)

  unfoldable pub mark_failed_async : ℕ → List ℕ → Action (Gallery Store) Done
  mark_failed_async i error = session (mark_failed now i error)

  -- the outcome of the second `try` is logged only
  abbrev pub caught : ℕ → Result Report × Gallery Store → Report × Gallery Store
  caught i (ok report, g) = (report, g)
  caught i (err e, g) =
      (Report.failed (str_exception e), (mark_failed_async i (str_exception e) g).1)

  unfoldable pub convert_model_task : ℕ → Gallery Store → Report × Gallery Store
  convert_model_task i g = caught i (run i g)
