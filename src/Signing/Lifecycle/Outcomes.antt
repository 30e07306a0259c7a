-- ===== src/Signing/Lifecycle/Outcomes.antt =====
-- api/signing.py: what retry, cancel and abort_in_progress do in each status.
use mathlib.Core.Option
use frappe_dsc.Base.{
  String, ◌==◌, take_text, find_row, update_row, find_row-update_row, eq_refl, Bool-cases, ◌≡◌,
  refl, ◌≢◌, inl, inr, some, none, List, arith, if◌then◌else◌,
}
use frappe_dsc.Site.{
  Status, DocumentStatus, same_status, SigningRequest, DocumentSign, Site, Db, Error, ok, err,
  Platform, Context, request_at, IsLogged, HookCall, same_status-eq, same_status-ne,
  eq_of_same_status, document_at,
}
use frappe_dsc.Requests.{stamp_status}
use frappe_dsc.Requests.Saving.{
  Transition, start, complete, break, reopen, withdraw, saved, save_request-saved,
  save_request-illegal, request-saved,
}
use frappe_dsc.Signing.Hooks.{run_dev_hooks}
use frappe_dsc.Signing.Hooks.Swallowing.{run_dev_hooks_ok}
use frappe_dsc.Signing.Lifecycle.{mirror_status, retry, cancel, abort_in_progress}

-- The keyword arguments of the hooks for a decline.
abbrev pub decline : SigningRequest → String → HookCall
decline doc reason = record {
  signing_request = doc.name;
  doctype = doc.source_doctype;
  docname = doc.source_name;
  profile = none;
  file_url = none;
  reason = some reason;
}

abbrev pub with_document_status : DocumentStatus → DocumentSign → DocumentSign
with_document_status status r = record r { status = status }

-- The database after the status of the source document was mirrored.
abbrev mirrored : SigningRequest → DocumentStatus → Db → Db
mirrored doc status d = record d {
  documents =
      if doc.source_doctype == "DSC Document Sign"
      then update_row (λ r. r.name) doc.source_name (with_document_status status) d.documents
      else d.documents;
}

mirror_status_lem :
    (doc : SigningRequest) (status : DocumentStatus) (s : Site)
    → mirror_status doc status s ≡ (ok tt, record s { db = mirrored doc status s.db })
unfolding mirror_status
mirror_status_lem doc status s = ground arith

-- A record of a source document shows the status that its request was given.
abbrev pub Mirrors : SigningRequest → DocumentStatus → Site → Site → Type 0
Mirrors doc status s t = document_at doc.source_name t ≡ (
    if doc.source_doctype == "DSC Document Sign"
    then Option.map (with_document_status status) (document_at doc.source_name s)
    else document_at doc.source_name s)

mirrors :
    (doc : SigningRequest) (status : DocumentStatus) (rows : List DocumentSign)
    → find_row
        (λ r. r.name)
        doc.source_name
        (if doc.source_doctype == "DSC Document Sign"
          then update_row (λ r. r.name) doc.source_name (with_document_status status) rows
          else rows)
      ≡ (if doc.source_doctype == "DSC Document Sign"
          then Option.map
              (with_document_status status)
              (find_row (λ r. r.name) doc.source_name rows)
          else find_row (λ r. r.name) doc.source_name rows)
mirrors doc status rows = elim (Bool-cases (doc.source_doctype == "DSC Document Sign")) [
  | inl same ↦ rw same (
      rw (
        find_row-update_row (λ r. r.name) doc.source_name doc.source_name
            (with_document_status status) rows (λ a h. h),
        eq_refl doc.source_name,
      ))
  | inr other ↦ rw other
]

no_withdrawal : ¬ Transition Status.failed Status.cancelled
no_withdrawal t = impossible t refl refl
  where
    impossible : {a b : Status} → Transition a b → a ≡ Status.failed → b ≡ Status.cancelled → ⊥
    impossible start p q = cc
    impossible withdraw p q = cc
    impossible complete p q = cc
    impossible break p q = cc
    impossible reopen p q = cc

no_abort : ¬ Transition Status.in_progress Status.pending
no_abort t = impossible t refl refl
  where
    impossible : {a b : Status} → Transition a b → a ≡ Status.in_progress → b ≡ Status.pending → ⊥
    impossible start p q = cc
    impossible withdraw p q = cc
    impossible complete p q = cc
    impossible break p q = cc
    impossible reopen p q = cc

module _ (P : Platform) (ctx : Context) (doc : SigningRequest) (s : Site)
    (found : request_at doc.name s ≡ some doc) where
  abbrev reopened : SigningRequest
  reopened = record doc { status = Status.pending; failure_reason = "" }

  -- The retry of a failed request makes it Pending with no reason, and so a Document Sign that it
  -- belongs to, and logs one event.
  pub retry_reopens :
      doc.status ≡ Status.failed
      → let (r, t) = retry P ctx doc.name s in
        (r ≡ ok Status.pending)
        × (request_at doc.name t ≡ some (record reopened { modified = ctx.now }))
        × Mirrors doc DocumentStatus.pending s t
        × IsLogged ctx doc.name "Request Retried" s.db t.db
  unfolding retry stamp_status
  retry_reopens failed =
      rw
        (
          found,
          same_status-eq failed,
          save_request-saved ctx reopened s found (rw failed reopen),
          mirror_status_lem doc DocumentStatus.pending (record s { db = saved ctx reopened s.db }),
        )
        (
          refl,
          request-saved ctx reopened s found,
          mirrors doc DocumentStatus.pending s.db.documents,
          (_, refl, refl, refl, refl, refl),
        )

  pub retry_refused :
      doc.status ≢ Status.failed → retry P ctx doc.name s ≡ (err Error.only_failed_retried, s)
  unfolding retry
  retry_refused ne = rw (found, same_status-ne doc.status Status.failed ne)

  abbrev withdrawn : SigningRequest
  withdrawn = record doc { status = Status.cancelled; cancelled_on = some ctx.now }

  -- The cancellation of a pending request makes it Cancelled, with the time, and so a Document Sign
  -- that it belongs to, and logs one event; the hooks for a decline run last, on the site that
  -- shows all this.
  pub cancel_withdraws :
      (reason : String)
      → doc.status ≡ Status.pending
      → (u : Site) × (cancel P ctx doc.name reason s
          ≡ (ok Status.cancelled, (run_dev_hooks P "dsc_on_decline" (decline doc reason) u).1))
        × (request_at doc.name u ≡ some (record withdrawn { modified = ctx.now }))
        × Mirrors doc DocumentStatus.cancelled s u
        × IsLogged ctx doc.name "Request Cancelled" s.db u.db
  unfolding cancel stamp_status
  cancel_withdraws reason pending =
      rw
        (
          found,
          same_status-eq pending,
          save_request-saved ctx withdrawn s found (rw pending withdraw),
          mirror_status_lem doc DocumentStatus.cancelled
              (record s { db = saved ctx withdrawn s.db }),
          run_dev_hooks_ok,
        )
        (
          _,
          refl,
          request-saved ctx withdrawn s found,
          mirrors doc DocumentStatus.cancelled s.db.documents,
          (_, refl, refl, refl, refl, refl),
        )

  -- The cancellation of a failed request raises in the save, and changes nothing.
  pub cancel_failed_refused :
      (reason : String)
      → doc.status ≡ Status.failed
      → cancel P ctx doc.name reason s
        ≡ (err (Error.bad_transition Status.failed Status.cancelled), s)
  unfolding cancel
  cancel_failed_refused reason failed = rw (
    found,
    same_status-eq failed,
    same_status-ne doc.status Status.pending (rw failed (cc)),
    save_request-illegal ctx withdrawn s found (rw failed (cc)) (rw failed no_withdrawal),
    failed,
  )

  abbrev aborted : String → SigningRequest
  aborted reason = record doc {
    status = Status.pending;
    failure_reason = take_text 140 (if reason == "" then "Client-side abort" else reason);
  }

  -- abort_in_progress changes nothing in any status: for a request that is In Progress it raises.
  pub abort_in_progress_refused :
      (reason : String)
      → abort_in_progress P ctx doc.name reason s ≡ (
        if same_status doc.status Status.in_progress
            then err (Error.bad_transition Status.in_progress Status.pending)
            else ok doc.status,
        s,
      )
  unfolding abort_in_progress
  abort_in_progress_refused reason = elim (Bool-cases (same_status doc.status Status.in_progress)) [
    | inl running ↦
        let is_running : doc.status ≡ Status.in_progress =
          eq_of_same_status doc.status Status.in_progress running in
        rw (
          found,
          running,
          save_request-illegal ctx (aborted reason) s found (rw is_running (cc))
              (rw is_running no_abort),
          is_running,
        )
    | inr other ↦ rw (found, other)
  ]
