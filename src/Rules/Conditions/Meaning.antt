-- ===== src/Rules/Conditions/Meaning.antt =====
-- rule_engine.py: what the conditions of a rule mean.
use frappe_dsc.Base.{String, ◌≡◌, refl, true, not, some, List, [], ◌∷◌, arith, Every, ◌↔◌}
use frappe_dsc.Site.{Operator, Rule, RuleCondition}
use frappe_dsc.Rules.Conditions.{
  Floats, Value, Document, holds, check_condition, check_all, evaluate_conditions,
}

module _ (N : Floats) where
  open N use {Float, flt, eq}

  -- The operators come in pairs, of which one is the negation of the other.
  pub negated_operators :
      (v : Value Float) (target : String)
      → (holds N Operator.not_equals v target ≡ not (holds N Operator.equals v target))
        × (holds N Operator.not_in v target ≡ not (holds N Operator.is_in v target))
        × (holds N Operator.is_set v target ≡ not (holds N Operator.is_not_set v target))
  unfolding holds
  negated_operators v target = (ground arith, refl, refl)

  -- A rule applies exactly when every one of its conditions holds of the document.
  pub conditions_all :
      (rule : Rule) (doc : Document N)
      → (evaluate_conditions N rule doc ≡ true)
        ↔ Every (λ c. check_condition N c doc ≡ true) rule.conditions
  unfolding evaluate_conditions
  conditions_all rule doc = (to rule.conditions, from rule.conditions)
    where
      to :
          (cs : List RuleCondition)
          → check_all N cs doc ≡ true
          → Every (λ c. check_condition N c doc ≡ true) cs
      to [] h = tt
      to (c ∷ rest) h = ground (arith, to rest)

      from :
          (cs : List RuleCondition)
          → Every (λ c. check_condition N c doc ≡ true) cs
          → check_all N cs doc ≡ true
      from [] h = refl
      from (c ∷ rest) h = ground (arith, from rest)

  -- `equals` holds of a text and a target that `flt` reads as the same number that equals itself,
  -- whatever the texts are.
  pub texts_compare_equal :
      (v target : String) (zero : Float)
      → flt (Value.text v) ≡ some zero
      → flt (Value.text target) ≡ some zero
      → eq zero zero ≡ true
      → holds N Operator.equals (Value.text v) target ≡ true
  unfolding holds
  texts_compare_equal v target zero a b e = rw (a, b, e)
