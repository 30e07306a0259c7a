-- ===== src/Tests/Requests.antt =====
-- The life cycle of requests, and the rules that make them.
use frappe_dsc.Base.{
  ◌≡◌, ◌≢◌, ◌⊎◌, inl, inr, ◌↔◌, refl, true, false, not, none, some, List, [], ◌∷◌, Every, ◌&&◌,
  rows_where, first_where, ◌≤◌,
}
use frappe_dsc.Site.{
  Rule, Status, DocumentStatus, TriggerEvent, Site, Error, ok, err, request_at, IsLogged,
}
use frappe_dsc.Requests.{save_request}
use frappe_dsc.Requests.Saving.{Transition, start, save_request-illegal}
use frappe_dsc.Signing.Hooks.{run_dev_hooks}
use frappe_dsc.Signing.Lifecycle.{retry, cancel, abort_in_progress}
use frappe_dsc.Signing.Lifecycle.Outcomes.{
  decline, Mirrors, retry_reopens, cancel_withdraws, cancel_failed_refused,
  abort_in_progress_refused,
}
use frappe_dsc.Rules.Requesting.{create_signing_request}
use frappe_dsc.Rules.Requesting.Once.{create_idem}
use frappe_dsc.Rules.Engine.{is_rule_for, applies, evaluate_rules}
use frappe_dsc.Rules.Engine.Priority.{IsChosen, fires, least_priority_wins}
use frappe_dsc.Tests.Samples.{platform, signer, admin}
use frappe_dsc.Tests.Records.{request_of, site, db, rule, invoice, whole}

not_back : ¬ Transition Status.in_progress Status.pending
not_back t = impossible t refl refl
  where
    impossible : {a b : Status} → Transition a b → a ≡ Status.in_progress → b ≡ Status.pending → ⊥
    impossible start p q = cc
    impossible _ p q = cc

save_request-illegal_example :
    save_request admin (request_of "RUN" Status.pending) site
    ≡ (err (Error.bad_transition Status.in_progress Status.pending), site)
unfolding frappe_dsc.Base.find_row
save_request-illegal_example =
    save_request-illegal admin (request_of "RUN" Status.pending) site
      {old = request_of "RUN" Status.in_progress} refl (cc) not_back

retry_reopens_example :
    let (r, t) = retry platform admin "FAIL" site in
    (r ≡ ok Status.pending)
    × (request_at "FAIL" t ≡ some (record (request_of "FAIL" Status.pending) { modified = 1000 }))
    × Mirrors (request_of "FAIL" Status.failed) DocumentStatus.pending site t
    × IsLogged admin "FAIL" "Request Retried" db t.db
unfolding frappe_dsc.Base.find_row
retry_reopens_example =
    retry_reopens platform admin (request_of "FAIL" Status.failed) site refl refl

cancel_withdraws_example :
    (u : Site) × (cancel platform admin "PEND" "no longer needed" site ≡ (
      ok Status.cancelled,
      (run_dev_hooks platform "dsc_on_decline"
          (decline (request_of "PEND" Status.pending) "no longer needed")
          u).1,
    ))
    × (request_at "PEND" u
        ≡ some (record (request_of "PEND" Status.cancelled) {
          cancelled_on = some 1000;
          modified = 1000;
        }))
    × Mirrors (request_of "PEND" Status.pending) DocumentStatus.cancelled site u
    × IsLogged admin "PEND" "Request Cancelled" db u.db
unfolding frappe_dsc.Base.find_row
cancel_withdraws_example =
    cancel_withdraws platform admin (request_of "PEND" Status.pending) site refl "no longer needed"
      refl

cancel_failed_refused_example :
    cancel platform admin "FAIL" "no longer needed" site
    ≡ (err (Error.bad_transition Status.failed Status.cancelled), site)
unfolding frappe_dsc.Base.find_row
cancel_failed_refused_example =
    cancel_failed_refused platform admin (request_of "FAIL" Status.failed) site refl
      "no longer needed" refl

abort_in_progress_refused_example :
    abort_in_progress platform admin "RUN" "closed" site
    ≡ (err (Error.bad_transition Status.in_progress Status.pending), site)
unfolding frappe_dsc.Base.find_row
abort_in_progress_refused_example =
    abort_in_progress_refused platform admin (request_of "RUN" Status.in_progress) site refl
      "closed"

create_idem_example :
    let (r, t) = create_signing_request platform signer "Invoice" "NEXT" rule site in
    create_signing_request platform signer "Invoice" "NEXT" rule t ≡ (r, t)
create_idem_example = create_idem platform signer "Invoice" "NEXT" rule site

least_priority_wins_example :
    (Every
        (λ q.
          is_rule_for invoice.doctype TriggerEvent.on_submit q ≡ true
          → applies whole TriggerEvent.on_submit invoice q ≡ false)
        site.db.rules
      × (evaluate_rules whole platform signer TriggerEvent.on_submit invoice site
          ≡ (ok none, site)))
    ⊎ ((r : Rule) × IsChosen whole platform signer TriggerEvent.on_submit invoice site r
        × (evaluate_rules whole platform signer TriggerEvent.on_submit invoice site
            ≡ fires whole platform signer TriggerEvent.on_submit invoice r site))
least_priority_wins_example =
    least_priority_wins whole platform signer TriggerEvent.on_submit invoice site
