-- ===== src/Alerts/Evaluation.antt =====
-- Which levels `evaluate_thresholds` raises.
use zhiwei_backend.Prelude.{
  ◌≡◌, sym, ◌&&◌, ap, ◌∙◌, ◌↔◌, ◌⊎◌, inl, inr, refl, Bool, true, false, ◌||◌, List, [], ◌∷◌, Option,
  none, some, String, str_eq, eq_iff, eq_refl, arith, Option-cases,
}
use mathlib.Core.Bool.{false≢true}
use zhiwei_backend.Prelude.Floats.{Floats}
use zhiwei_backend.Alerts.Rules.{
  Rule, TriggerEvent, ops, evaluate_rule, evaluate_rules, evaluate_thresholds, cons_event,
}

-- one of the events has this level
abbrev pub raised : {Float : Type 0} → String → List (TriggerEvent Float) → Bool
raised l [] = false
raised l (event ∷ events) = str_eq event.level l || raised l events

module _ (floats : Floats) where
  open floats use {Float}

  -- A rule with a known operator, a threshold and this level, whose comparison the value meets.
  pub record Fires (value : Float) (l : String) (rule : Rule Float) : Type 0 where
    pub op : String
    pub compares : Float → Float → Bool
    pub limit : Float
    pub operator : rule.operator ≡ some op
    pub known : ops floats op ≡ some compares
    pub threshold : rule.threshold ≡ some limit
    pub level : rule.level ≡ some l
    pub met : compares value limit ≡ true

  abbrev pub AnyFires : Float → String → List (Rule Float) → Type 0
  AnyFires value l [] = ⊥
  AnyFires value l (rule ∷ rules) = Fires value l rule ⊎ AnyFires value l rules

  abbrev raised_by : String → Option (TriggerEvent Float) → Bool
  raised_by l none = false
  raised_by l (some event) = str_eq event.level l

  evaluate_known :
      (value : Float) (rule : Rule Float) (op : String) (f : Float → Float → Bool) (limit : Float)
      (m : String)
      → rule.operator ≡ some op
      → ops floats op ≡ some f
      → rule.threshold ≡ some limit
      → rule.level ≡ some m
      → (l : String) → raised_by l (evaluate_rule floats value rule) ≡ (f value limit && str_eq m l)
  unfolding evaluate_rule
  evaluate_known value rule op f limit m o k t e l = ground arith

  Fires-raised :
      (value : Float) (l : String) (rule : Rule Float)
      → Fires value l rule
      → raised_by l (evaluate_rule floats value rule) ≡ true
  Fires-raised value l rule f =
      evaluate_known value rule f.op f.compares f.limit l f.operator f.known f.threshold f.level l
      ∙ rw f.met (eq_refl l)

  raised_at :
      (value : Float) (l : String) (rule : Rule Float) (op : String) (f : Float → Float → Bool)
      (limit : Float) (m : String)
      → rule.operator ≡ some op
      → ops floats op ≡ some f
      → rule.threshold ≡ some limit
      → rule.level ≡ some m
      → raised_by l (evaluate_rule floats value rule) ≡ true
      → Fires value l rule
  raised_at value l rule op f limit m o k t e h =
      let both : (f value limit && str_eq m l) ≡ true =
        sym (evaluate_known value rule op f limit m o k t e l) ∙ h in
      record {
        op = op;
        compares = f;
        limit = limit;
        operator = o;
        known = k;
        threshold = t;
        level = e ∙ ap (λ (x : String). some x) ((eq_iff m l).0 (ground arith));
        met = ground arith;
      }

  raised-Fires :
      (value : Float) (l : String) (rule : Rule Float)
      → raised_by l (evaluate_rule floats value rule) ≡ true
      → Fires value l rule
  raised-Fires value l rule h = elim (Option-cases rule.operator) [
    | inl e ↦ absurd (unfold evaluate_rule in ground arith)
    | inr (op, o) ↦ elim (Option-cases (ops floats op)) [
      | inl e ↦ absurd (unfold evaluate_rule in ground arith)
      | inr (f, k) ↦ elim (Option-cases rule.threshold) [
        | inl e ↦ absurd (unfold evaluate_rule in ground arith)
        | inr (limit, t) ↦ elim (Option-cases rule.level) [
          | inl e ↦ absurd (unfold evaluate_rule in ground arith)
          | inr (m, e) ↦ raised_at value l rule op f limit m o k t e h
        ]
      ]
    ]
  ]

  raised-cons_event :
      (l : String) (o : Option (TriggerEvent Float)) (events : List (TriggerEvent Float))
      → raised l (cons_event floats o events) ≡ (raised_by l o || raised l events)
  raised-cons_event l none events = refl
  raised-cons_event l (some event) events = refl

  or_iff : (a b : Bool) → ((a || b) ≡ true) ↔ ((a ≡ true) ⊎ (b ≡ true))
  or_iff true b = ((λ _. inl refl), (λ _. refl))
  or_iff false b = ((λ e. inr e), elim [ inl e ↦ absurd (false≢true e) | inr e ↦ e ])

  evaluate_rules-raised :
      (value : Float) (l : String) (rules : List (Rule Float))
      → (raised l (evaluate_rules floats value rules) ≡ true) ↔ AnyFires value l rules
  unfolding evaluate_rules
  evaluate_rules-raised value l [] = ((λ e. absurd (false≢true e)), (λ h. absurd h))
  evaluate_rules-raised value l (rule ∷ rules) =
      let ih = evaluate_rules-raised value l rules in
      let o = evaluate_rule floats value rule in
      let split = raised-cons_event l o (evaluate_rules floats value rules) in
      let either = or_iff (raised_by l o) (raised l (evaluate_rules floats value rules)) in
      (
        (λ h. elim (either.0 (sym split ∙ h)) [
          | inl r ↦ inl (raised-Fires value l rule r)
          | inr r ↦ inr (ih.0 r)
        ]),
        elim [
          | inl f ↦ split ∙ either.1 (inl (Fires-raised value l rule f))
          | inr r ↦ split ∙ either.1 (inr (ih.1 r))
        ],
      )

  -- A level is raised exactly if one of the rules of this level has a known operator and a threshold
  -- that the value meets.
  pub evaluate_thresholds-raised :
      (value : Float) (l : String) (rules : List (Rule Float))
      → (raised l (evaluate_thresholds floats value (some rules)) ≡ true) ↔ AnyFires value l rules
  unfolding evaluate_thresholds
  evaluate_thresholds-raised value l rules = evaluate_rules-raised value l rules
