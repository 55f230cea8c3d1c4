-- ===== src/Alerts/Windows.antt =====
-- The suppression windows of rules and of the events that they raise.
use zhiwei_backend.Prelude.{
  ℕ, ◌*◌, ◌≤◌, ◌≡◌, List, [], ◌∷◌, none, some, String, inl, inr, arith, ◌⊎◌, refl, Option-cases,
  Bool-cases,
}
use zhiwei_backend.Prelude.Floats.{Floats}
use zhiwei_backend.Alerts.Rules.{
  Rule, TriggerEvent, get_or_else, ops, evaluate_rule, evaluate_rules, evaluate_thresholds,
  cons_event,
}

module _ {Float : Type 0} where
  -- The windows of these events begin no earlier than the year 1, for a reading of the time `ts`.
  abbrev pub EventsFit : ℕ → List (TriggerEvent Float) → Type 0
  EventsFit ts [] = Unit
  EventsFit ts (event ∷ events) = (event.suppress_seconds * 1000000 ≤ ts) × EventsFit ts events

  -- The windows of these rules do.
  abbrev pub RulesFit : ℕ → List (Rule Float) → Type 0
  RulesFit ts [] = Unit
  RulesFit ts (rule ∷ rules) =
      (get_or_else rule.suppress_seconds 60 * 1000000 ≤ ts) × RulesFit ts rules

module _ (floats : Floats) where
  open floats use {Float}

  abbrev raised_event : String → Float → String → Float → Rule Float → TriggerEvent Float
  raised_event op limit m value rule = record {
    level = m;
    threshold = limit;
    operator = op;
    value = value;
    message = rule.message;
    suppress_seconds = get_or_else rule.suppress_seconds 60;
  }

  evaluate_rule-window :
      (value : Float) (rule : Rule Float)
      → (evaluate_rule floats value rule ≡ none)
        ⊎ ((event : TriggerEvent Float) × (evaluate_rule floats value rule ≡ some event)
            × (event.suppress_seconds ≡ get_or_else rule.suppress_seconds 60))
  unfolding evaluate_rule
  evaluate_rule-window value rule = elim (Option-cases rule.operator) [
    | inl e ↦ inl (ground arith)
    | inr (op, o) ↦ elim (Option-cases (ops floats op)) [
      | inl e ↦ inl (ground arith)
      | inr (f, k) ↦ elim (Option-cases rule.threshold) [
        | inl e ↦ inl (ground arith)
        | inr (limit, t) ↦ elim (Option-cases rule.level) [
          | inl e ↦ inl (ground arith)
          | inr (m, e) ↦ elim (Bool-cases (f value limit)) [
            | inl met ↦ inr (raised_event op limit m value rule, ground arith, refl)
            | inr unmet ↦ inl (ground arith)
          ]
        ]
      ]
    ]
  ]

  evaluate_rule-EventsFit :
      (value : Float) (rule : Rule Float) (ts : ℕ) (events : List (TriggerEvent Float))
      → get_or_else rule.suppress_seconds 60 * 1000000 ≤ ts
      → EventsFit ts events
      → EventsFit ts (cons_event floats (evaluate_rule floats value rule) events)
  evaluate_rule-EventsFit value rule ts events fits rest = elim (evaluate_rule-window value rule) [
    | inl e ↦ rw e rest
    | inr (event, e, w) ↦ rw e (rw w fits, rest)
  ]

  pub evaluate_thresholds-EventsFit :
      (value : Float) (ts : ℕ) (rules : List (Rule Float))
      → RulesFit ts rules
      → EventsFit ts (evaluate_thresholds floats value (some rules))
  unfolding evaluate_thresholds evaluate_rules
  evaluate_thresholds-EventsFit value ts [] fits = tt
  evaluate_thresholds-EventsFit value ts (rule ∷ rules) (first, fits) =
      evaluate_rule-EventsFit value rule ts (evaluate_rules floats value rules) first
        (evaluate_thresholds-EventsFit value ts rules fits)
