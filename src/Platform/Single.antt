-- ===== src/Platform/Single.antt =====
-- The table of settings keeps at most one row.
use zhiwei_backend.Prelude.{ℕ, ◌≡◌, refl, false, List, [], ◌∷◌, ok, ==_self}
use zhiwei_backend.Platform.Settings.{
  PlatformSettings, PlatformUpdate, is_empty, default_row, changed, update_settings, get_settings,
  ensure_singleton,
}

-- The row that there is, or the default one.
abbrev pub current : ℕ → List PlatformSettings → PlatformSettings
current now [] = default_row now
current now (row ∷ rows) = row

-- A table of one row or none.
abbrev pub AtMostOne : List PlatformSettings → Type 0
AtMostOne [] = Unit
AtMostOne (row ∷ []) = Unit
AtMostOne (row ∷ other ∷ rows) = ⊥

-- From a table of one row or none, an update with some field leaves one row: the one that was there, or
-- the default one, with the fields of the update.
pub update_settings-one :
    (now : ℕ) (payload : PlatformUpdate) (updated_by : ℕ) (rows : List PlatformSettings)
    → AtMostOne rows
    → is_empty payload ≡ false
    → let row = changed now payload updated_by (current now rows) in
      update_settings now payload updated_by rows ≡ (ok row, row ∷ [])
unfolding update_settings get_settings ensure_singleton
update_settings-one now payload updated_by [] h some_field = rw some_field refl
update_settings-one now payload updated_by (row ∷ []) h some_field = rw (some_field, ==_self) refl
update_settings-one now payload updated_by (row ∷ other ∷ rows) h some_field = absurd h
