-- ===== src/Alerts/Levels.antt =====
-- The sets of levels that the task compares.
use zhiwei_backend.Prelude.{
  ℕ, ◌≡◌, refl, ap, Bool, true, false, not, ◌&&◌, List, [], ◌∷◌, Option, none, some, String, str_eq,
  eq_iff, arith,
}
use zhiwei_backend.Prelude.Rows.{select, count}
use zhiwei_backend.Alerts.Rules.{TriggerEvent}
use zhiwei_backend.Alerts.Table.{Alert, AlertTable, is_open, level_is}
use zhiwei_backend.Alerts.Invariant.{open_count}
use zhiwei_backend.Prelude.{map, ◌||◌}
use zhiwei_backend.Alerts.Evaluation.{raised}
use zhiwei_backend.Alerts.Task.{
  member, difference, open_levels, level_of, collect_levels, add_level, is_open_on,
}

member_same : (l m : String) (ks : List String) → str_eq l m ≡ true → member l ks ≡ member m ks
member_same l m ks e = ap (λ (x : String). member x ks) ((eq_iff l m).0 e)

pub member-difference :
    (m : String) (ls triggered : List String)
    → member m (difference ls triggered) ≡ (member m ls && not (member m triggered))
member-difference m [] triggered = refl
member-difference m (l ∷ ls) triggered =
    ground (arith, member-difference m ls triggered, member_same l m triggered)

member-add_level :
    (m : String) (o : Option String) (ks : List String)
    → member m (add_level o ks) ≡ (level_is o m || member m ks)
member-add_level m none ks = refl
member-add_level m (some l) ks = ground (arith, member_same l m ks)

module _ {Float : Type 0} where
  pub member-level_of :
      (m : String) (events : List (TriggerEvent Float))
      → member m (map level_of events) ≡ raised m events
  member-level_of m [] = refl
  member-level_of m (event ∷ events) =
      ap (λ (b : Bool). str_eq event.level m || b) (member-level_of m events)

  collect_levels_complete :
      (c : ℕ) (m : String) (rows : List (Alert Float))
      → member m (collect_levels (select (is_open_on c) rows)) ≡ false
      → count (is_open c m) rows ≡ 0
  collect_levels_complete c m [] h = refl
  collect_levels_complete c m (a ∷ rows) h = ground (
    arith,
    collect_levels_complete c m rows,
    member-add_level m a.level (collect_levels (select (is_open_on c) rows)),
  )

  -- A level that the query does not give has no open alert.
  pub open_levels_complete :
      (c : ℕ) (m : String) (t : AlertTable Float)
      → member m (open_levels c t) ≡ false
      → open_count c m t ≡ 0
  unfolding open_levels
  open_levels_complete c m t h = collect_levels_complete c m t.rows h
