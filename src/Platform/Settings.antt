-- ===== src/Platform/Settings.antt =====
-- app/services/platform_service.py.
use zhiwei_backend.Prelude.{
  Done, ℕ, Bool, true, false, ◌&&◌, List, [], ◌∷◌, ◌++◌, Option, none, some, String, Action,
  biz_exception, pure, raise_if, lift, gets, modify, scalar_one_or_none, scalar_one, ◌>>=◌, ◌>>◌,
}
use zhiwei_backend.Prelude.Rows.{put}

pub record PlatformSettings : Type 0 where
  pub id : ℕ
  pub platform_name : String
  pub contact_email : Option String
  pub description : Option String
  pub logo_url : Option String
  pub updated_at : ℕ
  pub updated_by : Option ℕ

pub record PlatformUpdate : Type 0 where
  pub platform_name : Option String
  pub contact_email : Option String
  pub description : Option String
  pub logo_url : Option String

abbrev pub is_none : Option String → Bool
is_none none = true
is_none (some s) = false

abbrev pub is_empty : PlatformUpdate → Bool
is_empty payload =
    is_none payload.platform_name
    && (is_none payload.contact_email && (is_none payload.description && is_none payload.logo_url))

abbrev pub settings_id : PlatformSettings → ℕ
settings_id row = row.id

abbrev pub default_row : ℕ → PlatformSettings
default_row now = record {
  id = 1;
  platform_name = "SHM Platform";
  contact_email = none;
  description = none;
  logo_url = none;
  updated_at = now;
  updated_by = none;
}

abbrev pub all_rows : Action (List PlatformSettings) (List PlatformSettings)
all_rows = gets (λ rows. rows)

-- `if row is None: db.add(…)`
abbrev pub add_default : ℕ → Option PlatformSettings → Action (List PlatformSettings) Done
add_default now none = modify (λ rows. rows ++ default_row now ∷ [])
add_default now (some row) = pure tt

unfoldable pub ensure_singleton : ℕ → Action (List PlatformSettings) Done
ensure_singleton now = do rows ← all_rows; row ← lift (scalar_one_or_none rows); add_default now row

abbrev pub row_or_default :
    ℕ → Option PlatformSettings → Action (List PlatformSettings) PlatformSettings
row_or_default now none = do ensure_singleton now; rows ← all_rows; lift (scalar_one rows)
row_or_default now (some row) = pure row

unfoldable pub get_settings : ℕ → Action (List PlatformSettings) PlatformSettings
get_settings now = do rows ← all_rows; row ← lift (scalar_one_or_none rows); row_or_default now row

-- `if payload.x is not None: row.x = payload.x`
abbrev pub or_old : {A : Type 0} → Option A → A → A
or_old none old = old
or_old (some new) old = new

abbrev pub or_old_text : Option String → Option String → Option String
or_old_text none old = old
or_old_text (some new) old = some new

abbrev pub changed : ℕ → PlatformUpdate → ℕ → PlatformSettings → PlatformSettings
changed now payload updated_by row = record row {
  platform_name = or_old payload.platform_name row.platform_name;
  contact_email = or_old_text payload.contact_email row.contact_email;
  description = or_old_text payload.description row.description;
  logo_url = or_old_text payload.logo_url row.logo_url;
  updated_by = some updated_by;
  updated_at = now;
}

unfoldable pub update_settings :
    ℕ → PlatformUpdate → ℕ → Action (List PlatformSettings) PlatformSettings
update_settings now payload updated_by = do
  raise_if (is_empty payload) (biz_exception "EMPTY_UPDATE" "至少提供一个字段" 422)
  row ← get_settings now
  modify (λ rows. put settings_id (changed now payload updated_by row) rows)
  pure (changed now payload updated_by row)
