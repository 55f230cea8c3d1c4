-- ===== src/Models/Convert.antt =====
-- `convert_bytes` of scripts/model_convert.py. The library trimesh and Python's `lower` and `lstrip` are
-- parameters; of a ValueError only the kind is kept.
use zhiwei_backend.Prelude.{
  ℕ, Bool, not, ◌||◌, List, [], ◌∷◌, Option, none, some, String, str_eq, Exception, Result, ok, err,
  then_result, if◌then◌else◌,
}

-- `load` gives None for a file without a scene, and `export` the bytes of a GLB file.
pub record Trimesh (Scene : Type 0) : Type 0 where
  pub load : List ℕ → String → Result (Option Scene)
  pub export : Scene → Result (List ℕ)
  pub normalized : String → String

abbrev pub is_supported : String → Bool
is_supported fmt =
    str_eq fmt "obj"
    || (str_eq fmt "stl" || (str_eq fmt "ply" || (str_eq fmt "gltf" || str_eq fmt "glb")))

-- `if not glb: raise ValueError`
abbrev pub nonempty : List ℕ → Result (List ℕ)
nonempty [] = err Exception.value_error
nonempty (b ∷ bs) = ok (b ∷ bs)

-- `except Exception: raise ValueError`
abbrev pub parse_error : {A : Type 0} → Result A → Result A
parse_error (ok a) = ok a
parse_error (err e) = err Exception.value_error

module _ {Scene : Type 0} (trimesh : Trimesh Scene) where
  open trimesh use {load, export, normalized}

  abbrev pub exported : Option Scene → Result (List ℕ)
  exported none = err Exception.value_error
  exported (some scene) = then_result (export scene) nonempty

  abbrev pub converted : List ℕ → String → Result (List ℕ)
  converted bytes fmt =
      if not (is_supported fmt)
      then err Exception.value_error
      else if str_eq fmt "glb"
      then ok bytes
      else then_result (parse_error (load bytes fmt)) exported

  unfoldable pub convert_bytes : List ℕ → String → Result (List ℕ)
  convert_bytes bytes source_format = converted bytes (normalized source_format)
