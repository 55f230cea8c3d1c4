-- ===== src/Alerts/Invariant.antt =====
-- The invariant of the alert table, and what one write of a row does to it.
use zhiwei_backend.Prelude.{
  ℕ, suc, ◌+◌, ◌≤◌, ◌≡◌, sym, ap, ◌∙◌, Bool, true, ◌&&◌, List, [], ◌∷◌, ◌++◌, Option, none, some,
  String, str_eq, eq_iff, eq_refl, arith, subst, ◌==◌,
}
use zhiwei_backend.Prelude.Rows.{count, get, put}
use zhiwei_backend.Prelude.Rows.Laws.{
  bit, Distinct, AllBelow, ids, ids-put, ids-append, count-put, Distinct-append,
}
use zhiwei_backend.Alerts.Table.{Alert, AlertTable, alert_id, is_open, matches, level_is}

-- `channel_id` and `level` of an open alert are its key
abbrev pub same_key : ℕ → String → ℕ → String → Bool
same_key c l d m = (c == d) && str_eq l m

pub same_key_self : (c : ℕ) (l : String) → same_key c l c l ≡ true
same_key_self c l = ground (arith, eq_refl l)

level_is-str_eq :
    (o : Option String) (l m : String) → level_is o l ≡ true → level_is o m ≡ str_eq l m
level_is-str_eq none l m h = cc
level_is-str_eq (some x) l m h = ap (λ (y : String). str_eq y m) ((eq_iff x l).0 h)

module _ {Float : Type 0} where
  abbrev pub open_count : ℕ → String → AlertTable Float → ℕ
  open_count d m t = count (is_open d m) t.rows

  -- Primary keys are distinct and below the sequence, and a channel has at most one open alert of a
  -- level.
  pub record IsSound (t : AlertTable Float) : Type 0 where
    pub distinct : Distinct (ids alert_id t.rows)
    pub below : AllBelow t.next_id (ids alert_id t.rows)
    pub single : (d : ℕ) (m : String) → open_count d m t ≤ 1

  pub matches-same_key :
      (c d : ℕ) (l m : String) (a : Alert Float)
      → matches c l a ≡ true
      → matches d m a ≡ same_key c l d m
  matches-same_key c d l m a h = ground (arith, level_is-str_eq a.level l m)

  abbrev pub written : Alert Float → AlertTable Float → AlertTable Float
  written a t = record t { rows = put alert_id a t.rows }

  -- A write of the row of `b` moves each count by what the two rows count for.
  pub written_count :
      (a b : Alert Float) (t : AlertTable Float) (d : ℕ) (m : String)
      → IsSound t
      → get alert_id a.id t.rows ≡ some b
      → open_count d m (written a t) + bit (is_open d m b) ≡ open_count d m t + bit (is_open d m a)
  written_count a b t d m s e = count-put alert_id (is_open d m) a b t.rows s.distinct e

  pub written-IsSound :
      (a b : Alert Float) (t : AlertTable Float)
      → IsSound t
      → get alert_id a.id t.rows ≡ some b
      → ((d : ℕ) (m : String) → open_count d m (written a t) ≤ 1)
      → IsSound (written a t)
  written-IsSound a b t s e single = record {
    distinct = subst (λ (is : List ℕ). Distinct is) (sym (ids-put alert_id a t.rows)) s.distinct;
    below =
        subst (λ (is : List ℕ). AllBelow t.next_id is) (sym (ids-put alert_id a t.rows)) s.below;
    single = single;
  }

  abbrev pub added : Alert Float → AlertTable Float → AlertTable Float
  added a t = record { rows = t.rows ++ a ∷ []; next_id = suc t.next_id }

  pub added-IsSound :
      (a : Alert Float) (t : AlertTable Float)
      → IsSound t
      → a.id ≡ t.next_id
      → ((d : ℕ) (m : String) → open_count d m (added a t) ≤ 1)
      → IsSound (added a t)
  added-IsSound a t s e single =
      let new = Distinct-append t.next_id (ids alert_id t.rows) s.distinct s.below in
      let keys : ids alert_id (t.rows ++ a ∷ []) ≡ ids alert_id t.rows ++ t.next_id ∷ [] =
        ids-append alert_id t.rows a ∙ ap (λ (i : ℕ). ids alert_id t.rows ++ i ∷ []) e in
      record {
        distinct = subst (λ (is : List ℕ). Distinct is) (sym keys) new.0;
        below = subst (λ (is : List ℕ). AllBelow (suc t.next_id) is) (sym keys) new.1;
        single = single;
      }
