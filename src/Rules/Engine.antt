-- ===== src/Rules/Engine.antt =====
-- rule_engine.py: get_matching_rules, _evaluate_rules and the handlers of the document events.
pub mod Priority
use frappe_dsc.Base.{
  String, ◌==◌, Bool, true, false, not, ◌&&◌, Option, none, some, List, [], ◌∷◌, leb, truthy,
  get_or, rows_where, if◌then◌else◌,
}
use frappe_dsc.Site.{
  Rule, TriggerEvent, Json, no_details, detail, Db, Action, Done, pure, gets, when, ◌>>=◌, ◌>>◌,
  Platform, Context, log_event,
}
use frappe_dsc.Rules.Conditions.{Floats, Document, Value, value_of, is_blank, evaluate_conditions}
use frappe_dsc.Rules.Requesting.{create_signing_request}

abbrev pub same_trigger : TriggerEvent → TriggerEvent → Bool
same_trigger TriggerEvent.on_submit TriggerEvent.on_submit = true
same_trigger TriggerEvent.on_update TriggerEvent.on_update = true
same_trigger TriggerEvent.on_change TriggerEvent.on_change = true
same_trigger TriggerEvent.on_workflow_action TriggerEvent.on_workflow_action = true
same_trigger _ _ = false

-- `order_by="priority asc"`
unfoldable pub insert_rule : Rule → List Rule → List Rule
insert_rule r [] = r ∷ []
insert_rule r (q ∷ rest) =
    if leb r.priority q.priority then r ∷ q ∷ rest else q ∷ insert_rule r rest

unfoldable pub by_priority : List Rule → List Rule
unfolding insert_rule
by_priority [] = []
by_priority (r ∷ rest) = insert_rule r (by_priority rest)

unfoldable pub is_rule_for : String → TriggerEvent → Rule → Bool
is_rule_for doctype trigger r =
    r.is_enabled && r.target_doctype == doctype && same_trigger r.trigger_event trigger

unfoldable pub get_matching_rules : String → TriggerEvent → Db → List Rule
get_matching_rules doctype trigger d =
    by_priority (rows_where (is_rule_for doctype trigger) d.rules)

trigger_text : TriggerEvent → String
trigger_text TriggerEvent.on_submit = "on_submit"
trigger_text TriggerEvent.on_update = "on_update"
trigger_text TriggerEvent.on_change = "on_change"
trigger_text TriggerEvent.on_workflow_action = "on_workflow_action"

module _ (N : Floats) where
  open N use {Float}

  is_that_text : Value Float → String → Bool
  is_that_text (Value.text u) t = u == t
  is_that_text _ t = false

  -- A setting of the rule that is not empty, and that the document does not meet.
  unfoldable pub differs : Option String → Value Float → Bool
  unfolding is_that_text
  differs setting v = truthy setting && not (is_that_text v (get_or setting ""))

  -- The rule passes the two `continue`s and its conditions hold.
  unfoldable pub applies : TriggerEvent → Document N → Rule → Bool
  applies trigger doc r =
      not (differs r.company (value_of N "company" doc.values))
      && not (
          same_trigger trigger TriggerEvent.on_workflow_action
          && differs r.trigger_workflow_state (value_of N "workflow_state" doc.values))
      && evaluate_conditions N r doc

  same_value : Value Float → Value Float → Bool
  same_value Value.null Value.null = true
  same_value (Value.text t) (Value.text u) = t == u
  same_value (Value.number x) (Value.number y) = N.eq x y
  same_value _ _ = false

  same_as_before : Value Float → Option (List (String × Value Float)) → Bool
  unfolding same_value
  same_as_before v none = false
  same_as_before v (some values) = same_value (value_of N "workflow_state" values) v

  -- A workflow state that is set, and was another one before the save.
  unfoldable pub state_changed : Document N → Bool
  unfolding is_blank same_as_before value_of
  state_changed doc =
      let state = value_of N "workflow_state" doc.values in
      not (is_blank N state) && not (same_as_before state doc.before)

module _ (N : Floats) (P : Platform) (ctx : Context) where
  unfoldable pub log_rule : TriggerEvent → Rule → String → Action Done
  unfolding trigger_text
  log_rule trigger rule request = do
    log_event P ctx request "Rule Evaluated" (
        some (
          detail "rule" (Json.str rule.name) (
            detail "matched" (Json.bool true) (
              detail "trigger_event" (Json.str (trigger_text trigger))
                (detail "priority" (Json.num rule.priority) no_details)))))
    when (truthy rule.signature_template) (
        log_event P ctx request "Template Selected"
          (some (detail "template" (Json.str (get_or rule.signature_template "")) no_details)))

  -- The loop over the rules: the first match creates the request.
  unfoldable pub run_rules : TriggerEvent → Document N → List Rule → Action (Option String)
  unfolding log_rule
  run_rules trigger doc [] = pure none
  run_rules trigger doc (r ∷ rest) =
      let next = run_rules trigger doc rest in
      if applies N trigger doc r
      then (do
        request ← create_signing_request P ctx doc.doctype doc.name r
        when (not (request == "")) (log_rule trigger r request)
        pure (some request))
      else next

  unfoldable pub evaluate_rules : TriggerEvent → Document N → Action (Option String)
  evaluate_rules trigger doc = do
    rules ← gets (get_matching_rules doc.doctype trigger)
    run_rules trigger doc rules

  unfoldable pub evaluate_on_submit : Document N → Action Done
  unfolding evaluate_rules
  evaluate_on_submit doc = evaluate_rules TriggerEvent.on_submit doc >> pure tt

  unfoldable pub evaluate_on_update : Document N → Action Done
  unfolding evaluate_rules
  evaluate_on_update doc = evaluate_rules TriggerEvent.on_update doc >> pure tt

  unfoldable pub evaluate_on_change : Document N → Action Done
  unfolding evaluate_rules state_changed
  evaluate_on_change doc = do
    evaluate_rules TriggerEvent.on_change doc
    when (state_changed N doc) (evaluate_rules TriggerEvent.on_workflow_action doc >> pure tt)
