-- ===== src/Models/Service.antt =====
-- The table of app/models/model.py and `ModelService`, but for the list of a project's models. Texts of
-- errors are the numbers of their characters.
use zhiwei_backend.Prelude.{
  Done, ℕ, List, Option, none, some, String, Action, ok, biz_exception, pure, modify, some_or,
  ◌>>=◌, ◌>>◌,
}
use zhiwei_backend.Prelude.Rows.{get, put, delete}
use zhiwei_backend.Prelude.Rows.Tables.{Table, insert}

pub record Model : Type 0 where
  pub id : ℕ
  pub project_id : ℕ
  pub original_key : String
  pub original_name : String
  pub source_format : String
  pub glb_key : Option String
  pub status : String
  pub error : Option (List ℕ)
  pub created_by : Option ℕ
  pub note : Option String
  pub finished_at : Option ℕ

abbrev pub model_key : Model → ℕ
model_key m = m.id

abbrev pub new_model : ℕ → String → String → String → Option ℕ → Option String → ℕ → Model
new_model project original_key original_name source_format user note i = record {
  id = i;
  project_id = project;
  original_key = original_key;
  original_name = original_name;
  source_format = source_format;
  glb_key = none;
  status = "pending";
  error = none;
  created_by = user;
  note = note;
  finished_at = none;
}

unfoldable pub create :
    ℕ → String → String → String → Option ℕ → Option String → Action (Table Model) Model
create project original_key original_name source_format user note t =
    let m = new_model project original_key original_name source_format user note t.next_id in
    (ok m, insert m t)

abbrev pub get_model : ℕ → Action (Table Model) Model
get_model i t = some_or (get model_key i t.rows) (biz_exception "MODEL_NOT_FOUND" "模型不存在" 404) t

abbrev pub flush : Model → Action (Table Model) Done
flush m = modify (λ t. record t { rows = put model_key m t.rows })

abbrev pub processing : Model → Model
processing m = record m { status = "processing" }

unfoldable pub mark_running : ℕ → Action (Table Model) Done
mark_running i = do m ← get_model i; flush (processing m)

abbrev pub succeeded : ℕ → String → Model → Model
succeeded now glb_key m = record m {
  status = "success";
  glb_key = some glb_key;
  error = none;
  finished_at = some now;
}

unfoldable pub mark_success : ℕ → ℕ → String → Action (Table Model) Done
mark_success now i glb_key = do m ← get_model i; flush (succeeded now glb_key m)

abbrev pub failed : ℕ → List ℕ → Model → Model
failed now error m = record m { status = "failed"; error = some error; finished_at = some now }

unfoldable pub mark_failed : ℕ → ℕ → List ℕ → Action (Table Model) Done
mark_failed now i error = do m ← get_model i; flush (failed now error m)

-- The keys of the objects that the caller clears.
unfoldable pub delete_model : ℕ → Action (Table Model) (String × Option String)
delete_model i = do
  m ← get_model i
  modify (λ t. record t { rows = delete model_key i t.rows })
  pure (m.original_key, m.glb_key)
