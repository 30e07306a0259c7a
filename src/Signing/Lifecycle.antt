-- ===== src/Signing/Lifecycle.antt =====
-- api/signing.py: retry, cancel and abort_in_progress.
pub mod Outcomes
use frappe_dsc.Base.{String, ◌==◌, not, ◌||◌, none, some, take_text, if◌then◌else◌}
use frappe_dsc.Site.{
  Status, DocumentStatus, same_status, SigningRequest, no_details, detail, str, Error, Action, Done,
  pure, raise_if, when, ◌>>=◌, ◌>>◌, Platform, Context, get_request, write_document, log_event,
}
use frappe_dsc.Requests.{save_request}
use frappe_dsc.Signing.Hooks.{run_dev_hooks}

-- `if doc.source_doctype == "DSC Document Sign": db.set_value(…, "status", status)`
unfoldable pub mirror_status : SigningRequest → DocumentStatus → Action Done
mirror_status doc status =
    when (doc.source_doctype == "DSC Document Sign")
      (write_document doc.source_name (λ d. record d { status = status }))

module _ (P : Platform) (ctx : Context) where
  -- The event shows `failure_reason` after it was cleared, as the code reads it then.
  unfoldable pub retry : String → Action Status
  retry signing_request = do
    doc ← get_request signing_request
    raise_if (not (same_status doc.status Status.failed)) Error.only_failed_retried
    save_request ctx (record doc { status = Status.pending; failure_reason = "" })
    mirror_status doc DocumentStatus.pending
    log_event P ctx signing_request "Request Retried"
        (some (detail "previous_failure" (str "") no_details))
    pure Status.pending

  unfoldable pub cancel : String → String → Action Status
  cancel signing_request reason = do
    doc ← get_request signing_request
    raise_if (not (same_status doc.status Status.pending || same_status doc.status Status.failed))
        Error.only_pending_cancelled
    save_request ctx (record doc { status = Status.cancelled; cancelled_on = some ctx.now })
    mirror_status doc DocumentStatus.cancelled
    log_event P ctx signing_request "Request Cancelled"
        (some (detail "reason" (str reason) no_details))
    run_dev_hooks P "dsc_on_decline" (record {
      signing_request = signing_request;
      doctype = doc.source_doctype;
      docname = doc.source_name;
      profile = none;
      file_url = none;
      reason = some reason;
    })
    pure Status.cancelled

  -- The rest of abort_in_progress, once the request is known to be In Progress.
  unfoldable pub abort_pending : SigningRequest → String → Action Status
  abort_pending doc reason = do
    save_request ctx (record doc {
      status = Status.pending;
      failure_reason = take_text 140 (if reason == "" then "Client-side abort" else reason);
    })
    mirror_status doc DocumentStatus.pending
    log_event P ctx doc.name "Request Aborted" (some (detail "reason" (str reason) no_details))
    pure Status.pending

  unfoldable pub abort_in_progress : String → String → Action Status
  unfolding abort_pending
  abort_in_progress signing_request reason = do
    doc ← get_request signing_request
    if not (same_status doc.status Status.in_progress)
        then pure doc.status
        else abort_pending doc reason
