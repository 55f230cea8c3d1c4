-- ===== src/Storage.antt =====
-- The object store behind app/utils/minio_client.py. The S3 client of aioboto3 is not part of the
-- repository: it is the record of its calls, and what the code relies on is `Stores`.
-- The type of a content is left out.
use zhiwei_backend.Prelude.{Done, ℕ, ◌≡◌, List, String, Action, ok}

pub record S3 (Store : Type 0) : Type 0 where
  pub put_object : String → List ℕ → Action Store Done
  pub get_object : String → Action Store (List ℕ)
  pub delete_object : String → Action Store Done

module _ {Store : Type 0} (s3 : S3 Store) where
  open s3 use {put_object, get_object, delete_object}

  -- An object that was put without an error can be got.
  pub record Stores : Type 0 where
    pub got :
        (key : String) (body : List ℕ) (s : Store)
        → (put_object key body s).0 ≡ ok tt
        → (get_object key (put_object key body s).1).0 ≡ ok body

  unfoldable pub put_bytes : String → List ℕ → Action Store Done
  put_bytes key body = put_object key body

  unfoldable pub get_bytes : String → Action Store (List ℕ)
  get_bytes key = get_object key

  unfoldable pub delete_object_at : String → Action Store Done
  delete_object_at key = delete_object key
