-- ===== src/System/Hooks.antt =====
-- hooks.py: the DocTypes whose events the rule engine hears, and the handlers of the events.
use Prim.Native.Nat.{Ordering}
use Prim.Native.String.{compare}
use frappe_dsc.Base.{
  String, ◌==◌, ◌≡◌, refl, ap, ◌∙◌, Bool, true, false, not, ◌&&◌, ◌||◌, Option, none, some, List,
  [], ◌∷◌, ◌++◌, arith, contains, any_row, eq_iff, if◌then◌else◌,
}
use frappe_dsc.Site.{Rule, Db, Action, Done, Platform, Context}
use frappe_dsc.Rules.Conditions.{Floats, Document}
use frappe_dsc.Rules.Engine.{evaluate_on_submit, evaluate_on_update, evaluate_on_change}

-- `_DEFAULT_TRACKED_DOCTYPES`
abbrev pub default_tracked_doctypes : List String
default_tracked_doctypes =
    "Sales Invoice" ∷ "Purchase Invoice" ∷ "Sales Order" ∷ "Purchase Order" ∷ "Quotation"
    ∷ "Delivery Note" ∷ "Stock Entry" ∷ "Material Request" ∷ "Journal Entry" ∷ "Payment Entry" ∷ []

precedes : String → String → Bool
precedes a b = elim (compare a b) [ Ordering.lt ↦ true | _ ↦ false ]

-- `sorted(set(…))`: the names in order, each once.
unfoldable pub insert_name : String → List String → List String
unfolding precedes
insert_name n [] = n ∷ []
insert_name n (m ∷ rest) =
    if m == n then m ∷ rest else if precedes n m then n ∷ m ∷ rest else m ∷ insert_name n rest

unfoldable pub sorted_set : List String → List String
unfolding insert_name
sorted_set [] = []
sorted_set (n ∷ rest) = insert_name n (sorted_set rest)

-- The rows of the query.
unfoldable pub is_configured : Rule → Bool
is_configured r = r.is_enabled && not (r.target_doctype == "")

unfoldable pub configured_doctypes : List Rule → List String
unfolding is_configured
configured_doctypes [] = []
configured_doctypes (r ∷ rest) =
    if is_configured r
    then r.target_doctype ∷ configured_doctypes rest
    else configured_doctypes rest

-- Without a database, as while the app is installed, the defaults alone.
unfoldable pub get_tracked_doctypes : Option Db → List String
unfolding sorted_set configured_doctypes
get_tracked_doctypes none = default_tracked_doctypes
get_tracked_doctypes (some d) = sorted_set (default_tracked_doctypes ++ configured_doctypes d.rules)

contains-insert_name :
    (t n : String) (names : List String)
    → contains (insert_name n names) t ≡ (if n == t then true else contains names t)
unfolding insert_name
contains-insert_name t n [] = refl
contains-insert_name t n (m ∷ rest) =
    ground (arith, eq_iff m n, eq_iff n t, eq_iff m t, contains-insert_name t n rest)

contains-sorted_set :
    (t : String) (names : List String) → contains (sorted_set names) t ≡ contains names t
unfolding sorted_set
contains-sorted_set t [] = refl
contains-sorted_set t (n ∷ rest) =
    ground (arith, contains-insert_name t n (sorted_set rest), contains-sorted_set t rest)

contains-append :
    (t : String) (xs ys : List String) → contains (xs ++ ys) t ≡ (contains xs t || contains ys t)
contains-append t [] ys = refl
contains-append t (x ∷ xs) ys = ground (arith, contains-append t xs ys)

contains-configured :
    (t : String) (rules : List Rule)
    → contains (configured_doctypes rules) t
      ≡ any_row (λ r. is_configured r && r.target_doctype == t) rules
unfolding configured_doctypes any_row
contains-configured t [] = refl
contains-configured t (r ∷ rest) = ground (arith, contains-configured t rest)

-- The rule engine hears the events of exactly the ten DocTypes written here and of those that an
-- enabled rule names as its target, and of no other.
pub tracked_exactly :
    (d : Db) (doctype : String)
    → contains (get_tracked_doctypes (some d)) doctype ≡ (
        contains
          ("Sales Invoice" ∷ "Purchase Invoice" ∷ "Sales Order" ∷ "Purchase Order" ∷ "Quotation"
            ∷ "Delivery Note" ∷ "Stock Entry" ∷ "Material Request" ∷ "Journal Entry"
            ∷ "Payment Entry" ∷ [])
          doctype
        || any_row
            (λ r. (r.is_enabled && not (r.target_doctype == "")) && r.target_doctype == doctype)
            d.rules)
unfolding get_tracked_doctypes is_configured
tracked_exactly d doctype =
    contains-sorted_set doctype (default_tracked_doctypes ++ configured_doctypes d.rules)
    ∙ contains-append doctype default_tracked_doctypes (configured_doctypes d.rules)
    ∙ ap (λ b. contains default_tracked_doctypes doctype || b) (contains-configured doctype d.rules)

-- The keys of `_RULE_ENGINE_EVENTS`.
pub data DocEvent : Type 0 where
  on_submit on_update_after_submit on_change : DocEvent

module _ (N : Floats) (P : Platform) (ctx : Context) where
  unfoldable pub rule_engine_event : DocEvent → Document N → Action Done
  rule_engine_event DocEvent.on_submit doc = evaluate_on_submit N P ctx doc
  rule_engine_event DocEvent.on_update_after_submit doc = evaluate_on_update N P ctx doc
  rule_engine_event DocEvent.on_change doc = evaluate_on_change N P ctx doc
