-- ===== src/Models/Requests.antt =====
-- The requests of app/routers/models.py that change or download a model. The extension that Python's
-- `rsplit` and `lower` cut from a file name, the name that `uuid4` gives and the broker's answer to a new
-- task are arguments; of a download only the body is kept.
use zhiwei_backend.Prelude.{
  Done, ℕ, ◌*◌, Bool, not, ◌||◌, ltb, List, [], ◌∷◌, ◌++◌, length, Option, none, some, String,
  str_eq, if◌then◌else◌, Action, Result, ok, err, biz_exception, pure, raise_if, lift, some_or,
  ◌>>=◌, ◌>>◌,
}
use Prim.Native.String.{◌++◌ as str_append}
use zhiwei_backend.Prelude.Rows.{get}
use zhiwei_backend.Storage.{S3, put_bytes, get_bytes, delete_object_at}
use zhiwei_backend.Users.Table.{User}
use zhiwei_backend.Access.Guards.{check_project_access, check_project_write_access, require_admin}
use zhiwei_backend.Inventory.Records.{Project, Inventory, project_key}
use zhiwei_backend.Models.Service
use zhiwei_backend.Models.Service.{Model, create, get_model, mark_failed}
use zhiwei_backend.Models.Convert.{is_supported}
use zhiwei_backend.Models.Task.{Gallery, session, request}

abbrev pub max_model_bytes : ℕ
max_model_bytes = 200 * 1024 * 1024

-- `file.filename or "model"`
abbrev pub name_or : Option String → String
name_or none = "model"
name_or (some name) = if str_eq name "" then "model" else name

-- the list of formats is left out of the message
abbrev pub unsupported_message : String → String
unsupported_message ext = str_append "不支持的格式 ." ext

abbrev pub is_empty : List ℕ → Bool
is_empty [] = Bool.true
is_empty (b ∷ bs) = Bool.false

abbrev pub not_ready_message : String → String
not_ready_message status = str_append "模型尚未完成转换 (status=" (str_append status ")")

abbrev pub project_of : {Json S : Type 0} → Inventory Json → ℕ → Action S (Project Json)
project_of inventory i =
    some_or (get project_key i inventory.projects.rows)
      (biz_exception "PROJECT_NOT_FOUND" "子项不存在" 404)

-- A table and a store, and the models whose conversion the broker holds.
pub record Desk (Store : Type 0) : Type 0 where
  pub gallery : Gallery Store
  pub queue : List ℕ

module _ {Store : Type 0} where
  abbrev pub on_gallery :
      {A : Type 0} → Desk Store → Result A × Gallery Store → Result A × Desk Store
  on_gallery d (r, g) = (r, record d { gallery = g })

  abbrev pub in_gallery : {A : Type 0} → Action (Gallery Store) A → Action (Desk Store) A
  in_gallery m d = on_gallery d (m d.gallery)

  -- `convert_model_task.delay`: a model whose task is not taken fails at once
  abbrev pub delivered : ℕ → List ℕ → Result Done → ℕ → Action (Desk Store) Done
  delivered now undelivered (ok done) i d = (ok tt, record d { queue = d.queue ++ i ∷ [] })
  delivered now undelivered (err e) i d = in_gallery (session (mark_failed now i undelivered)) d

  unfoldable pub upload_model :
      {Json : Type 0}
      → S3 Store
      → Inventory Json
      → (String → String)
      → (String → String)
      → ℕ
      → List ℕ
      → Result Done
      → User
      → ℕ
      → Option String
      → List ℕ
      → Option String
      → Action (Desk Store) (ℕ × String)
  upload_model s3 inventory extension key_of now undelivered broker_answer current_user project
        filename body note =
      do
        project_of inventory project
        lift (check_project_write_access current_user project inventory.links)
        raise_if (not (is_supported (extension (name_or filename)))) (
            biz_exception "MODEL_FORMAT_UNSUPPORTED"
              (unsupported_message (extension (name_or filename))) 400)
        raise_if (ltb max_model_bytes (length body))
            (biz_exception "MODEL_TOO_LARGE" "文件超过 200MB 上限" 413)
        raise_if (is_empty body) (biz_exception "MODEL_EMPTY" "上传文件为空" 400)
        in_gallery (request (put_bytes s3 (key_of (extension (name_or filename))) body))
        m ← in_gallery (
            session (
              create project (key_of (extension (name_or filename))) (name_or filename)
                (extension (name_or filename)) (some current_user.id) note))
        delivered now undelivered broker_answer m.id
        pure (m.id, "pending")

  abbrev pub downloaded : S3 Store → Model → Option String → Action (Gallery Store) (List ℕ)
  downloaded s3 m none g =
      (err (biz_exception "MODEL_NOT_READY" (not_ready_message m.status) 409), g)
  downloaded s3 m (some key) g =
      if not (str_eq m.status "success") || str_eq key ""
      then (err (biz_exception "MODEL_NOT_READY" (not_ready_message m.status) 409), g)
      else request (get_bytes s3 key) g

  unfoldable pub get_model_file :
      {Json : Type 0} → S3 Store → Inventory Json → User → ℕ → Action (Gallery Store) (List ℕ)
  get_model_file s3 inventory current_user i = do
    m ← session (get_model i)
    lift (check_project_access current_user m.project_id inventory.links)
    downloaded s3 m m.glb_key

  -- a key that is not empty; what the store raises is passed over
  abbrev pub clear : S3 Store → Option String → Gallery Store → Gallery Store
  clear s3 none g = g
  clear s3 (some key) g = if str_eq key "" then g else (request (delete_object_at s3 key) g).1

  abbrev pub cleared : S3 Store → String × Option String → Action (Gallery Store) Done
  cleared s3 (original_key, glb_key) g = (ok tt, clear s3 glb_key (clear s3 (some original_key) g))

  unfoldable pub delete_model : S3 Store → User → ℕ → Action (Gallery Store) Done
  delete_model s3 user i = do
    lift (require_admin user)
    keys ← session (Service.delete_model i)
    cleared s3 keys
