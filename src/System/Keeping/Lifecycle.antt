-- ===== src/System/Keeping/Lifecycle.antt =====
-- api/signing.py and the controller of the signing requests: what a change of status keeps.
use mathlib.Core.Path.{subst}
use frappe_dsc.Base.{
  true, Option, none, some, sym, not, ◌||◌, Bool-cases, inl, inr, String, ◌≡◌, refl, List, [], ◌∷◌,
  some, none, take_text, if◌then◌else◌, ◌==◌, Every,
}
use frappe_dsc.Site.{
  Status, same_status, Site, Error, log_event, detail, str, no_details, pure, handle, get_request,
  set_request, write_request, raise_if, DocumentStatus, SigningRequest, Action, Done, Platform,
  Context, HookCall, log_error,
}
use frappe_dsc.Requests.{validate_status_transition, stamp_status, save_request}
use frappe_dsc.Signing.Hooks.{run_handlers, run_dev_hooks}
use frappe_dsc.Signing.Lifecycle.{mirror_status, retry, cancel, abort_pending, abort_in_progress}
use frappe_dsc.System.Keeping.{
  updated-IsSound, Baseline, IsEvidenced, unsigned-IsEvidenced, IsKept, Keeps, log_event-IsSound,
  update-IsSound, after, tried, branches, when-Keeps, get_request-Keeps,
}

-- The handlers of the developer hooks keep the log and the evidence too.
abbrev pub HooksKeep : Platform → Baseline → Type 0
HooksKeep P base =
    (hook : String) (call : HookCall) → Every (λ h. Keeps P base (h.1 call)) (P.hooks hook)

pub stamp_status-IsEvidenced :
    (ctx : Context) (t : Status) (r : SigningRequest)
    → IsEvidenced r
    → IsEvidenced (stamp_status ctx t r)
unfolding stamp_status
stamp_status-IsEvidenced ctx Status.signed r h = λ e. ((h e).0, (h e).1, refl, (h e).3)
stamp_status-IsEvidenced ctx Status.cancelled r h = h
stamp_status-IsEvidenced ctx Status.pending r h = h
stamp_status-IsEvidenced ctx Status.in_progress r h = h
stamp_status-IsEvidenced ctx Status.failed r h = h

validate_status_transition-same :
    (old : Option Status) (new : Status) (s : Site) → (validate_status_transition old new s).1 ≡ s
unfolding validate_status_transition
validate_status_transition-same none new s = refl
validate_status_transition-same (some old) new s = elim (Bool-cases (same_status old new)) [
  | inl same ↦ rw same refl
  | inr other ↦ rw other refl
]

module _ (P : Platform) (base : Baseline) where
  pub log_error-Keeps : (title : String) → Keeps P base (log_error title)
  log_error-Keeps title s h = record { running = h.running; committed = h.committed }

  run_handlers-Keeps :
      (hook : String) (call : HookCall) (handlers : List (String × (HookCall → Action Done)))
      → Every (λ h. Keeps P base (h.1 call)) handlers
      → Keeps P base (run_handlers hook call handlers)
  unfolding run_handlers
  run_handlers-Keeps hook call [] all s h = h
  run_handlers-Keeps hook call ((name, handler) ∷ rest) all s h =
      after (handle (λ e. log_error _) (handler call s).0 (handler call s).1) _
        (tried (handler call s) _ (all.0 s h) (λ e. log_error-Keeps _))
        (λ _. run_handlers-Keeps hook call rest all.1)

  pub run_dev_hooks-Keeps :
      HooksKeep P base
      → (hook : String) (call : HookCall) → Keeps P base (run_dev_hooks P hook call)
  unfolding run_dev_hooks
  run_dev_hooks-Keeps hooks hook call =
      run_handlers-Keeps hook call (P.hooks hook) (hooks hook call)

  pub save_request-Keeps :
      (ctx : Context) (doc : SigningRequest)
      → (base.with_evidence ≡ true → IsEvidenced doc)
      → Keeps P base (save_request ctx doc)
  unfolding save_request
  save_request-Keeps ctx doc k s h =
      after (get_request doc.name s) _ (get_request-Keeps doc.name s h) λ old s1 h1.
        after (validate_status_transition (some old.status) doc.status s1) _
          (subst (IsKept P base)
            (sym (validate_status_transition-same (some old.status) doc.status s1)) h1)
          λ _ s2 h2.
            when-Keeps _ (write_request doc.name (stamp_status ctx doc.status))
              (λ s3 h3. record {
                running = update-IsSound _ _ h3.running (stamp_status-IsEvidenced ctx doc.status);
                committed = h3.committed;
              })
              (set_request ctx doc.name (λ r. doc) s2).1
              (record {
                running = updated-IsSound _ _ h2.running (λ e r _. k e);
                committed = h2.committed;
              })

  pub mirror_status-Keeps :
      (doc : SigningRequest) (status : DocumentStatus) → Keeps P base (mirror_status doc status)
  unfolding mirror_status
  mirror_status-Keeps doc status =
      when-Keeps _ _ λ s h. record { running = h.running; committed = h.committed }

  pub retry-Keeps : (ctx : Context) (name : String) → Keeps P base (retry P ctx name)
  unfolding retry
  retry-Keeps ctx name s h = after (get_request name s) _ (get_request-Keeps name s h) λ doc s1 h1.
      after (raise_if (not (same_status doc.status Status.failed)) Error.only_failed_retried s1) _
        h1
        λ _ s2 h2.
          let reset = record doc { status = Status.pending; failure_reason = "" } in
          after (save_request ctx reset s2) _
            (save_request-Keeps ctx reset (λ _. unsigned-IsEvidenced reset refl) s2 h2)
            λ _ s3 h3.
              after (mirror_status doc DocumentStatus.pending s3) _
                (mirror_status-Keeps doc _ s3 h3)
                λ _ s4 h4. record {
                  running = log_event-IsSound _ h4.running refl;
                  committed = h4.committed;
                }

  pub cancel-Keeps :
      HooksKeep P base
      → (ctx : Context) (name reason : String) → Keeps P base (cancel P ctx name reason)
  unfolding cancel
  cancel-Keeps hooks ctx name reason s h =
      after (get_request name s) _ (get_request-Keeps name s h) λ doc s1 h1.
        after
          (raise_if
            (not (same_status doc.status Status.pending || same_status doc.status Status.failed))
            Error.only_pending_cancelled s1)
          _ h1
          λ _ s2 h2.
            let gone = record doc { status = Status.cancelled; cancelled_on = some ctx.now } in
            after (save_request ctx gone s2) _
              (save_request-Keeps ctx gone (λ _. unsigned-IsEvidenced gone refl) s2 h2)
              λ _ s3 h3.
                after (mirror_status doc DocumentStatus.cancelled s3) _
                  (mirror_status-Keeps doc _ s3 h3)
                  λ _ s4 h4.
                    let s5 =
                      (log_event P ctx name "Request Cancelled"
                        (some (detail "reason" (str reason) no_details)) s4).1 in
                    let call : HookCall = record {
                      signing_request = name;
                      doctype = doc.source_doctype;
                      docname = doc.source_name;
                      profile = none;
                      file_url = none;
                      reason = some reason;
                    } in
                    after (run_dev_hooks P "dsc_on_decline" call s5) _
                      (run_dev_hooks-Keeps hooks "dsc_on_decline" call s5 (record {
                        running = log_event-IsSound _ h4.running refl;
                        committed = h4.committed;
                      }))
                      λ _ s6 h6. h6

  abort_pending-Keeps :
      (ctx : Context) (doc : SigningRequest) (reason : String)
      → Keeps P base (abort_pending P ctx doc reason)
  unfolding abort_pending
  abort_pending-Keeps ctx doc reason s h =
      let back = record doc {
        status = Status.pending;
        failure_reason = take_text 140 (if reason == "" then "Client-side abort" else reason);
      } in
      after (save_request ctx back s) _
        (save_request-Keeps ctx back (λ _. unsigned-IsEvidenced back refl) s h)
        λ _ s1 h1.
          after (mirror_status doc DocumentStatus.pending s1) _ (mirror_status-Keeps doc _ s1 h1)
            λ _ s2 h2. record {
              running = log_event-IsSound _ h2.running refl;
              committed = h2.committed;
            }

  pub abort_in_progress-Keeps :
      (ctx : Context) (name reason : String) → Keeps P base (abort_in_progress P ctx name reason)
  unfolding abort_in_progress
  abort_in_progress-Keeps ctx name reason s h =
      after (get_request name s) _ (get_request-Keeps name s h) λ doc s1 h1.
        branches (not (same_status doc.status Status.in_progress)) (pure doc.status)
          (abort_pending P ctx doc reason) (λ s2 h2. h2) (abort_pending-Keeps ctx doc reason) s1 h1
