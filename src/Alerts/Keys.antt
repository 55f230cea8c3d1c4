-- ===== src/Alerts/Keys.antt =====
-- How the counts of open alerts move, by the key of the row that is written.
use zhiwei_backend.Prelude.{
  ℕ, ◌≤◌, ◌≡◌, ap, Bool, true, false, not, ◌&&◌, some, String, eq_iff, arith, if◌then◌else◌,
}
use zhiwei_backend.Prelude.Rows.{get}
use zhiwei_backend.Prelude.Rows.Laws.{bit}
use zhiwei_backend.Alerts.Table.{Alert, AlertTable, alert_id, is_open, matches}
use zhiwei_backend.Alerts.Invariant.{
  IsSound, open_count, same_key, matches-same_key, written, written_count,
}

pub key_equal : (c d : ℕ) (l m : String) → same_key c l d m ≡ true → (c ≡ d) × (l ≡ m)
key_equal c d l m h = (ground arith, (eq_iff l m).0 (ground arith))

module _ {Float : Type 0} where
  pub open_count_key :
      (c d : ℕ) (l m : String) (t : AlertTable Float)
      → same_key c l d m ≡ true
      → open_count d m t ≡ open_count c l t
  open_count_key c d l m t h = let (p, q) = key_equal c d l m h in cc

  pub is_open-matches :
      (d : ℕ) (m : String) (a : Alert Float)
      → is_open d m a ≡ true
      → (matches d m a ≡ true) × (a.is_resolved ≡ false)
  is_open-matches d m a h = ground arith

  pub bit_open :
      (c d : ℕ) (l m : String) (a : Alert Float)
      → matches c l a ≡ true
      → bit (is_open d m a) ≡ bit (same_key c l d m && not a.is_resolved)
  bit_open c d l m a h =
      ap (λ (k : Bool). bit (k && not a.is_resolved)) (matches-same_key c d l m a h)

  -- A written row that is open under the key, where none or the same one was before.
  pub write_open :
      (c : ℕ) (l : String) (t : AlertTable Float) (a b : Alert Float)
      → IsSound t
      → get alert_id a.id t.rows ≡ some b
      → is_open c l a ≡ true
      → matches c l b ≡ true
      → open_count c l t ≡ bit (not b.is_resolved)
      → (d : ℕ) (m : String)
      → open_count d m (written a t) ≡ (if same_key c l d m then 1 else open_count d m t)
  write_open c l t a b s e open_a match_b n d m =
      let (match_a, unresolved) = is_open-matches c l a open_a in
      ground (
        arith,
        written_count a b t d m s e,
        bit_open c d l m a match_a,
        bit_open c d l m b match_b,
        open_count_key c d l m t,
      )

  pub at_most_one :
      (c : ℕ) (l : String) (t : AlertTable Float) (n : ℕ → String → ℕ)
      → IsSound t
      → ((d : ℕ) (m : String) → n d m ≡ (if same_key c l d m then 1 else open_count d m t))
      → (d : ℕ) (m : String) → n d m ≤ 1
  at_most_one c l t n s e d m = ground (arith, e d m, s.single d m)
