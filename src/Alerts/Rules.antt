-- ===== src/Alerts/Rules.antt =====
-- `evaluate_thresholds` of app/services/alert_service.py.
use zhiwei_backend.Prelude.{
  ℕ, Bool, not, List, [], ◌∷◌, Option, none, some, String, str_eq, if◌then◌else◌,
}
use zhiwei_backend.Prelude.Floats.{Floats}

-- An entry of a channel's `alert_rules`; `none` is a key that is missing or null. A null or negative
-- `suppress_seconds` has no value here.
pub record Rule (Float : Type 0) : Type 0 where
  pub operator : Option String
  pub threshold : Option Float
  pub level : Option String
  pub message : Option String
  pub suppress_seconds : Option ℕ

pub record TriggerEvent (Float : Type 0) : Type 0 where
  pub level : String
  pub threshold : Float
  pub operator : String
  pub value : Float
  pub message : Option String
  pub suppress_seconds : ℕ

abbrev pub get_or_else {ℓ} : {A : Type ℓ} → Option A → A → A
get_or_else none d = d
get_or_else (some a) d = a

module _ (floats : Floats) where
  open floats use {Float, lt, le, eq}

  -- `_OPS`
  unfoldable pub ops : String → Option (Float → Float → Bool)
  ops op =
      if str_eq op "gt"
      then some (λ v t. lt t v)
      else if str_eq op "lt"
      then some lt
      else if str_eq op "ge"
      then some (λ v t. le t v)
      else if str_eq op "le"
      then some le
      else if str_eq op "eq"
      then some eq
      else if str_eq op "ne"
      then some (λ v t. not (eq v t))
      else none

  -- The body of the loop: `none` is its `continue`, or a comparison that fails.
  unfoldable pub evaluate_rule : Float → Rule Float → Option (TriggerEvent Float)
  evaluate_rule value rule = elim rule.operator [
    | none ↦ none
    | some op ↦ elim (ops op) [
      | none ↦ none
      | some compare ↦ elim rule.threshold [
        | none ↦ none
        | some threshold ↦ elim rule.level [
          | none ↦ none
          | some level ↦
              if compare value threshold
              then some (record {
                level = level;
                threshold = threshold;
                operator = op;
                value = value;
                message = rule.message;
                suppress_seconds = get_or_else rule.suppress_seconds 60;
              })
              else none
        ]
      ]
    ]
  ]

  abbrev pub cons_event :
      Option (TriggerEvent Float) → List (TriggerEvent Float) → List (TriggerEvent Float)
  cons_event none events = events
  cons_event (some event) events = event ∷ events

  unfoldable pub evaluate_rules : Float → List (Rule Float) → List (TriggerEvent Float)
  evaluate_rules value [] = []
  evaluate_rules value (rule ∷ rules) =
      cons_event (evaluate_rule value rule) (evaluate_rules value rules)

  unfoldable pub evaluate_thresholds :
      Float → Option (List (Rule Float)) → List (TriggerEvent Float)
  unfolding evaluate_rules
  evaluate_thresholds value none = []
  evaluate_thresholds value (some rules) = evaluate_rules value rules
