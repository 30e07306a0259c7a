-- ===== src/System/Keeping/Rules.antt =====
-- rule_engine.py and the controller of DSC Document Sign: what the making of a request keeps.
use frappe_dsc.Base.{
  String, ◌==◌, not, ◌&&◌, Option, none, some, List, [], ◌∷◌, refl, is_text, truthy, get_or,
  first_where,
}
use frappe_dsc.Site.{
  Error, raise_if, SigningRequest, DocumentSign, Rule, TriggerEvent, Json, no_details, detail,
  Result, Done, pure, gets, when, ◌>>=◌, ◌>>◌, ok, err, handle, deliver, Platform, Context, Mail,
  send_now, log_error, log_event,
}
use frappe_dsc.Rules.Conditions.{Floats, Document}
use frappe_dsc.Rules.Requesting.{
  resolve_signer_user, new_request, is_request_for, notify_signer, tell_signer, insert_request,
  existing_or_new, create_signing_request,
}
use frappe_dsc.Rules.Engine.{
  get_matching_rules, applies, state_changed, log_rule, run_rules, evaluate_rules,
  evaluate_on_submit, evaluate_on_update, evaluate_on_change,
}
use frappe_dsc.Documents.{
  document_request, insert_document_request, once, is_ready, is_open_for, on_update,
}
use frappe_dsc.System.Keeping.{
  Baseline, IsEvidenced, IsKept, Keeps, unsigned-IsEvidenced, log_event-IsSound, insert-IsSound,
  after, tried, branches, when-Keeps,
}
use frappe_dsc.System.Keeping.Lifecycle.{log_error-Keeps}

new_request-IsEvidenced :
    (ctx : Context) (request doctype name : String) (rule : Rule) (signer : Option String)
    → IsEvidenced (new_request ctx request doctype name rule signer)
unfolding new_request
new_request-IsEvidenced ctx request doctype name rule signer =
    unsigned-IsEvidenced (new_request ctx request doctype name rule signer) refl

module _ (P : Platform) (base : Baseline) where
  delivered : (r : Result Done) (mail : Mail) → Keeps P base (deliver mail r)
  delivered (ok a) mail s h = record { running = h.running; committed = h.committed }
  delivered (err e) mail s h = h

  pub send_now-Keeps : (mail : Mail) → Keeps P base (send_now P mail)
  send_now-Keeps mail = delivered (P.send mail) mail

  tell_signer-Keeps :
      (ctx : Context) (request doctype name signer : String)
      → Keeps P base (tell_signer P ctx request doctype name signer)
  unfolding tell_signer
  tell_signer-Keeps ctx request doctype name signer s h =
      after
        (handle (λ e. log_error "DSC: signer notification email failed")
          (notify_signer P ctx request doctype name signer s).0
          (notify_signer P ctx request doctype name signer s).1)
        _
        (tried (notify_signer P ctx request doctype name signer s) _ (send_now-Keeps _ s h)
          (λ e. log_error-Keeps P base _))
        λ _ s1 h1. record { running = h1.running; committed = h1.committed }

  insert_request-Keeps :
      (ctx : Context) (doctype name : String) (rule : Rule)
      → Keeps P base (insert_request P ctx doctype name rule)
  unfolding insert_request
  insert_request-Keeps ctx doctype name rule s h =
      let signer = resolve_signer_user ctx rule.profile s.db in
      let request = P.new_name "DSC Signing Request" s.db in
      let row = new_request ctx request doctype name rule signer in
      let tell = tell_signer P ctx request doctype name (get_or signer "") in
      after
        (raise_if (not (truthy rule.profile))
          (Error.mandatory_missing "DSC Signing Request" request) s)
        _ h
        λ _ s1 h1.
          after (when (truthy signer && not (is_text signer "Administrator")) tell _) _
            (when-Keeps (truthy signer && not (is_text signer "Administrator")) tell
              (tell_signer-Keeps ctx request doctype name (get_or signer "")) _
              (record {
                running =
                    log_event-IsSound _
                      (insert-IsSound row h1.running
                        (new_request-IsEvidenced ctx request doctype name rule signer))
                      refl;
                committed = h1.committed;
              }))
            λ _ s2 h2. h2

  create_signing_request-Keeps :
      (ctx : Context) (doctype name : String) (rule : Rule)
      → Keeps P base (create_signing_request P ctx doctype name rule)
  unfolding create_signing_request existing_or_new
  create_signing_request-Keeps ctx doctype name rule s h =
      reached (first_where (is_request_for doctype name rule.name) s.db.requests)
    where
      reached :
          (found : Option SigningRequest)
          → IsKept P base (existing_or_new P ctx doctype name rule found s).1
      reached (some r) = h
      reached none = insert_request-Keeps ctx doctype name rule s h

  log_rule-Keeps :
      (N : Floats) (ctx : Context) (trigger : TriggerEvent) (rule : Rule) (request : String)
      → Keeps P base (log_rule N P ctx trigger rule request)
  unfolding log_rule
  log_rule-Keeps N ctx trigger rule request s h =
      when-Keeps (truthy rule.signature_template)
        (log_event P ctx request "Template Selected"
          (some (detail "template" (Json.str (get_or rule.signature_template "")) no_details)))
        (λ s1 h1. record {
          running = log_event-IsSound _ h1.running refl;
          committed = h1.committed;
        })
        _ (record { running = log_event-IsSound _ h.running refl; committed = h.committed })

  run_rules-Keeps :
      (N : Floats) (ctx : Context) (trigger : TriggerEvent) (doc : Document N) (rules : List Rule)
      → Keeps P base (run_rules N P ctx trigger doc rules)
  unfolding run_rules
  run_rules-Keeps N ctx trigger doc [] s h = h
  run_rules-Keeps N ctx trigger doc (r ∷ rest) s h =
      branches (applies N trigger doc r)
        (do
          request ← create_signing_request P ctx doc.doctype doc.name r
          when (not (request == "")) (log_rule N P ctx trigger r request)
          pure (some request))
        (run_rules N P ctx trigger doc rest)
        (λ s h.
          after (create_signing_request P ctx doc.doctype doc.name r s) _
            (create_signing_request-Keeps ctx doc.doctype doc.name r s h)
            λ request s1 h1.
              after (when (not (request == "")) (log_rule N P ctx trigger r request) s1) _
                (when-Keeps (not (request == "")) (log_rule N P ctx trigger r request)
                  (log_rule-Keeps N ctx trigger r request) s1 h1)
                λ _ s2 h2. h2)
        (run_rules-Keeps N ctx trigger doc rest) s h

  pub evaluate_rules-Keeps :
      (N : Floats) (ctx : Context) (trigger : TriggerEvent) (doc : Document N)
      → Keeps P base (evaluate_rules N P ctx trigger doc)
  unfolding evaluate_rules
  evaluate_rules-Keeps N ctx trigger doc s h =
      run_rules-Keeps N ctx trigger doc (get_matching_rules doc.doctype trigger s.db) s h

  module _ (N : Floats) (ctx : Context) (doc : Document N) where
    evaluated-Keeps :
        (trigger : TriggerEvent) → Keeps P base (evaluate_rules N P ctx trigger doc >> pure tt)
    evaluated-Keeps trigger s h =
        after (evaluate_rules N P ctx trigger doc s) _ (evaluate_rules-Keeps N ctx trigger doc s h)
          λ _ s1 h1. h1

    pub evaluate_on_submit-Keeps : Keeps P base (evaluate_on_submit N P ctx doc)
    unfolding evaluate_on_submit
    evaluate_on_submit-Keeps = evaluated-Keeps TriggerEvent.on_submit

    pub evaluate_on_update-Keeps : Keeps P base (evaluate_on_update N P ctx doc)
    unfolding evaluate_on_update
    evaluate_on_update-Keeps = evaluated-Keeps TriggerEvent.on_update

    pub evaluate_on_change-Keeps : Keeps P base (evaluate_on_change N P ctx doc)
    unfolding evaluate_on_change
    evaluate_on_change-Keeps s h =
        after (evaluate_rules N P ctx TriggerEvent.on_change doc s) _
          (evaluate_rules-Keeps N ctx TriggerEvent.on_change doc s h)
          λ _ s1 h1.
            when-Keeps (state_changed N doc)
              (evaluate_rules N P ctx TriggerEvent.on_workflow_action doc >> pure tt)
              (evaluated-Keeps TriggerEvent.on_workflow_action) s1 h1

  once-Keeps :
      (ctx : Context) (doc : DocumentSign) (found : Option SigningRequest)
      → Keeps P base (once P ctx doc found)
  unfolding once insert_document_request document_request
  once-Keeps ctx doc none s h = record {
    running =
        let row = document_request P ctx (P.new_name "DSC Signing Request" s.db) doc in
        insert-IsSound row h.running (unsigned-IsEvidenced row refl);
    committed = h.committed;
  }
  once-Keeps ctx doc (some r) s h = h

  pub on_update-Keeps : (ctx : Context) (doc : DocumentSign) → Keeps P base (on_update P ctx doc)
  unfolding on_update
  on_update-Keeps ctx doc =
      when-Keeps (is_ready doc)
        (do all ← gets (λ d. d.requests); once P ctx doc (first_where (is_open_for doc.name) all))
        (λ s h. once-Keeps ctx doc (first_where (is_open_for doc.name) s.db.requests) s h)
