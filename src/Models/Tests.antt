-- ===== src/Models/Tests.antt =====
-- An uploaded file in a store that keeps whatever it is given.
use zhiwei_backend.Prelude.{
  ℕ, ◌≡◌, refl, List, [], ◌∷◌, none, some, String, str_eq, eq_iff, Exception, Result, ok, err,
  if◌then◌else◌,
}
use zhiwei_backend.Storage.{S3, Stores, get_bytes}
use zhiwei_backend.Models.Service.{Model, new_model, mark_running, mark_failed}
use zhiwei_backend.Models.Convert.{Trimesh, convert_bytes}
use zhiwei_backend.Models.Task.{Gallery, Report, run, mark_failed_async, convert_model_task}
use zhiwei_backend.Models.Settling.{Settled, convert_model_task-Settled}

abbrev Objects : Type 0
Objects = List (String × List ℕ)

abbrev object_at : String → Objects → Result (List ℕ)
object_at key [] = err Exception.key_error
object_at key ((k, body) ∷ objects) = if str_eq k key then ok body else object_at key objects

abbrev shelf : S3 Objects
shelf = record {
  put_object = λ key body s. (ok tt, (key, body) ∷ s);
  get_object = λ key s. (object_at key s, s);
  delete_object = λ key s. (ok tt, s);
}

shelf-Stores : Stores shelf
shelf-Stores = record { got = λ key body s h. rw ((eq_iff key key).1 refl) refl }

-- Every file is a scene, exported as the bytes 1, 2.
abbrev meshes : Trimesh ℕ
meshes = record {
  load = λ bytes fmt. ok (some 0);
  export = λ scene. ok (1 ∷ 2 ∷ []);
  normalized = λ fmt. fmt;
}

abbrev tower : String → Model
tower fmt = new_model 2 "models/2/a.obj" "tower.obj" fmt none none 1

abbrev gallery : String → Gallery Objects
gallery fmt = record {
  models = record { rows = tower fmt ∷ []; next_id = 2 };
  store = ("models/2/a.obj", 7 ∷ []) ∷ [];
}

convert_model_task-failed :
    (convert_model_task meshes shelf (λ n. "2") (λ e. 69 ∷ []) "b" 9 1 (gallery "ifc")).0
    ≡ Report.failed (69 ∷ [])
unfolding convert_model_task run mark_failed_async mark_running mark_failed convert_bytes get_bytes
convert_model_task-failed = refl

convert_model_task-Settled_example :
    Settled meshes shelf
      (λ n. "2")
      (λ e. 69 ∷ [])
      "b"
      9
      1
      (tower "obj")
      (gallery "obj")
      (convert_model_task meshes shelf (λ n. "2") (λ e. 69 ∷ []) "b" 9 1 (gallery "obj"))
convert_model_task-Settled_example =
    convert_model_task-Settled meshes shelf (λ n. "2") (λ e. 69 ∷ []) "b" 9 1 (tower "obj")
      (gallery "obj") shelf-Stores refl
