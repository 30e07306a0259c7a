-- ===== src/Rules/Conditions.antt =====
-- rule_engine.py: evaluate_conditions, _check_condition and _coerce_and_compare.
pub mod Meaning
use Prim.Native.String.{compare}
use package.text.Mathlib.Text.{is_lt}
use frappe_dsc.Base.{
  String, ◌==◌, Bool, true, false, not, Option, some, List, [], ◌∷◌, or_text, contains,
  comma_values, has_part, if◌then◌else◌,
}
use frappe_dsc.Site.{Operator, RuleCondition, Rule}

-- A value of a document's field.
pub data Value (F : Type 0) : Type 0 where
  null : Value F
  text : String → Value F
  number : F → Value F

-- Python's floats, and Frappe's `flt`, which gives no number where it raises.
pub record Floats : Type 1 where
  pub Float : Type 0
  pub zero : Float
  pub eq : Float → Float → Bool
  pub lt : Float → Float → Bool
  pub str : Float → String
  pub flt : Value Float → Option Float

pub data Comparison : Type 0 where
  eq ne gt lt : Comparison

module _ (N : Floats) where
  open N use {Float}

  -- A document as the rules see it: `before` is the version before the save.
  pub record Document : Type 0 where
    pub doctype : String
    pub name : String
    pub values : List (String × Value Float)
    pub before : Option (List (String × Value Float))

module _ (N : Floats) where
  open N use {Float}

  -- `doc.get(field)`
  unfoldable pub value_of : String → List (String × Value Float) → Value Float
  value_of field [] = Value.null
  value_of field ((f, v) ∷ rest) = if f == field then v else value_of field rest

  -- `v is None or v == "" or v == 0`
  unfoldable pub is_blank : Value Float → Bool
  is_blank Value.null = true
  is_blank (Value.text t) = t == ""
  is_blank (Value.number x) = N.eq x N.zero

  -- `str(v)`
  unfoldable pub str_value : Value Float → String
  str_value Value.null = "None"
  str_value (Value.text t) = t
  str_value (Value.number x) = N.str x

  -- `str(v or "")`
  unfoldable pub str_or_empty : Value Float → String
  unfolding is_blank str_value
  str_or_empty v = if is_blank v then "" else str_value v

  unfoldable pub compare_floats : Comparison → Float → Float → Bool
  compare_floats Comparison.eq a b = N.eq a b
  compare_floats Comparison.ne a b = not (N.eq a b)
  compare_floats Comparison.gt a b = N.lt b a
  compare_floats Comparison.lt a b = N.lt a b

  unfoldable pub compare_texts : Comparison → String → String → Bool
  compare_texts Comparison.eq a b = a == b
  compare_texts Comparison.ne a b = not (a == b)
  compare_texts Comparison.gt a b = is_lt (compare b a)
  compare_texts Comparison.lt a b = is_lt (compare a b)

  numbers_or_texts : Comparison → Value Float → String → Option Float → Option Float → Bool
  unfolding compare_floats compare_texts str_or_empty
  numbers_or_texts op v target (some a) (some b) = compare_floats op a b
  numbers_or_texts op v target _ _ = compare_texts op (str_or_empty v) target

  unfoldable pub coerce_and_compare : Comparison → Value Float → String → Bool
  unfolding numbers_or_texts
  coerce_and_compare op v target =
      numbers_or_texts op v target (N.flt v) (N.flt (Value.text target))

  unfoldable pub holds : Operator → Value Float → String → Bool
  unfolding is_blank coerce_and_compare comma_values str_value has_part str_or_empty
  holds Operator.is_set v target = not (is_blank v)
  holds Operator.is_not_set v target = is_blank v
  holds Operator.equals v target = coerce_and_compare Comparison.eq v target
  holds Operator.not_equals v target = coerce_and_compare Comparison.ne v target
  holds Operator.greater_than v target = coerce_and_compare Comparison.gt v target
  holds Operator.less_than v target = coerce_and_compare Comparison.lt v target
  holds Operator.is_in v target = contains (comma_values target) (str_value v)
  holds Operator.not_in v target = not (contains (comma_values target) (str_value v))
  holds Operator.has_text v target = has_part target (str_or_empty v)
  holds (Operator.unknown op) v target = false

  unfoldable pub check_condition : RuleCondition → Document N → Bool
  unfolding holds value_of
  check_condition c doc = holds c.operator (value_of c.field_name doc.values) (or_text c.value "")

  unfoldable pub check_all : List RuleCondition → Document N → Bool
  unfolding check_condition
  check_all [] doc = true
  check_all (c ∷ rest) doc = if not (check_condition c doc) then false else check_all rest doc

  unfoldable pub evaluate_conditions : Rule → Document N → Bool
  unfolding check_all
  evaluate_conditions rule doc = check_all rule.conditions doc
