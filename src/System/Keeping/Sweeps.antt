-- ===== src/System/Keeping/Sweeps.antt =====
-- get_signing_status of api/signing.py and the scheduled jobs: what their loops keep.
use frappe_dsc.Base.{
  ℕ, String, ◌==◌, ◌&&◌, not, List, [], ◌∷◌, refl, Every, rows_where, Bool-cases, inl, inr,
}
use frappe_dsc.Site.{
  Status, DocumentStatus, SigningRequest, Profile, Result, ok, err, Mail, Done, pure, when, commit,
  lift, enqueue, queue_mail, ◌>>◌, write_request, write_document, Platform, Context,
}
use frappe_dsc.Signing.Progress.{
  is_stale, recover, recover_all, newest_first, status_or_none, get_signing_status,
  get_form_actions,
}
use frappe_dsc.Jobs.{
  timeout_of, no_rows, timed_out, is_overdue, expire_all, expire_stale_pending_requests,
  is_purgeable, cutoff_of, delete_request, delete_all, purge_old_requests, is_due, days_left,
  warn_admins, warn_all, notify_upcoming_expiries,
}
use frappe_dsc.System.Keeping.{
  Baseline, IsEvidenced, Keeps, unsigned-IsEvidenced, update-IsSound, after, branches, when-Keeps,
}

commit-Keeps : {P : Platform} {base : Baseline} → Keeps P base commit
commit-Keeps s h = record { running = h.running; committed = h.running }

module _ (P : Platform) (base : Baseline) where
  reset-Keeps :
      (doctype docname : String) (r : SigningRequest)
      → Keeps P base (do
        write_request r.name (λ q. record q { status = Status.pending })
        when
            (doctype == "DSC Document Sign")
            (write_document docname (λ d. record d { status = DocumentStatus.pending }))
        pure (record r { status = Status.pending }))
  reset-Keeps doctype docname r s h =
      after
        (when (doctype == "DSC Document Sign")
          (write_document docname (λ d. record d { status = DocumentStatus.pending })) _)
        _
        (when-Keeps (doctype == "DSC Document Sign")
          (write_document docname (λ d. record d { status = DocumentStatus.pending }))
          (λ s1 h1. record { running = h1.running; committed = h1.committed })
          (write_request r.name (λ q. record q { status = Status.pending }) s).1
          (record {
            running =
                update-IsSound r.name (λ q. record q { status = Status.pending }) h.running
                  (λ q _. unsigned-IsEvidenced (record q { status = Status.pending }) refl);
            committed = h.committed;
          }))
        λ _ s2 h2. h2

  recover-Keeps :
      (ctx : Context) (doctype docname : String) (r : SigningRequest)
      → Keeps P base (recover ctx doctype docname r)
  unfolding recover
  recover-Keeps ctx doctype docname r =
      branches (is_stale ctx r) _ (pure r) (reset-Keeps doctype docname r) (λ s h. h)

  recover_all-Keeps :
      (ctx : Context) (doctype docname : String) (rows : List SigningRequest)
      → Keeps P base (recover_all ctx doctype docname rows)
  unfolding recover_all
  recover_all-Keeps ctx doctype docname [] s h = h
  recover_all-Keeps ctx doctype docname (r ∷ rest) s h =
      after (recover ctx doctype docname r s) _ (recover-Keeps ctx doctype docname r s h) λ q s1 h1.
        after (recover_all ctx doctype docname rest s1) _
          (recover_all-Keeps ctx doctype docname rest s1 h1) λ qs s2 h2. h2

  status_or_none-Keeps :
      (ctx : Context) (doctype docname : String) (rows : List SigningRequest)
      → Keeps P base (status_or_none ctx doctype docname rows)
  unfolding status_or_none
  status_or_none-Keeps ctx doctype docname [] s h = h
  status_or_none-Keeps ctx doctype docname (r ∷ rest) s h =
      after (recover_all ctx doctype docname (r ∷ rest) s) _
        (recover_all-Keeps ctx doctype docname (r ∷ rest) s h) λ qs s1 h1. h1

  pub get_signing_status-Keeps :
      (ctx : Context) (doctype docname : String)
      → Keeps P base (get_signing_status ctx doctype docname)
  unfolding get_signing_status
  get_signing_status-Keeps ctx doctype docname s h =
      status_or_none-Keeps ctx doctype docname
        (newest_first
          (rows_where (λ r. r.source_doctype == doctype && r.source_name == docname) s.db.requests))
        s h

  pub get_form_actions-Keeps :
      (ctx : Context) (doctype docname : String)
      → Keeps P base (get_form_actions ctx doctype docname)
  unfolding get_form_actions
  get_form_actions-Keeps ctx doctype docname s h =
      after (get_signing_status ctx doctype docname s) _
        (get_signing_status-Keeps ctx doctype docname s h) λ info s1 h1. h1

  expire_all-Keeps :
      (ctx : Context) (timeout : ℕ) (rows : List SigningRequest)
      → Keeps P base (expire_all P ctx timeout rows)
  unfolding expire_all timed_out
  expire_all-Keeps ctx timeout [] s h = h
  expire_all-Keeps ctx timeout (r ∷ rest) s h =
      let late =
        λ (q : SigningRequest). record (timed_out P ctx timeout q) { modified = ctx.now } in
      expire_all-Keeps ctx timeout rest _ (record {
        running = update-IsSound r.name late h.running (λ q _. unsigned-IsEvidenced (late q) refl);
        committed = h.committed;
      })

  pub expire_stale_pending_requests-Keeps :
      (ctx : Context) → Keeps P base (expire_stale_pending_requests P ctx)
  unfolding expire_stale_pending_requests
  expire_stale_pending_requests-Keeps ctx s h =
      let stale = rows_where (is_overdue ctx (timeout_of s.db)) s.db.requests in
      after (expire_all P ctx (timeout_of s.db) stale s) _
        (expire_all-Keeps ctx (timeout_of s.db) stale s h)
        λ _ s1 h1. when-Keeps (not (no_rows stale)) commit commit-Keeps s1 h1

  purged :
      (ctx : Context) (name : String) (rows : List SigningRequest)
      → Every IsEvidenced rows
      → Every IsEvidenced (delete_request P ctx name rows)
  unfolding delete_request
  purged ctx name [] all = tt
  purged ctx name (r ∷ rest) all = elim (Bool-cases (r.name == name)) [
    | inl gone ↦ rw gone (purged ctx name rest all.1)
    | inr stays ↦ rw stays (all.0, purged ctx name rest all.1)
  ]

  delete_all-Keeps :
      (ctx : Context) (rows : List SigningRequest) → Keeps P base (delete_all P ctx rows)
  unfolding delete_all
  delete_all-Keeps ctx [] s h = h
  delete_all-Keeps ctx (r ∷ rest) s h = delete_all-Keeps ctx rest _ (record {
    running = record {
      new = h.running.new;
      logged = h.running.logged;
      hashed = h.running.hashed;
      evidenced = λ e. purged ctx r.name s.db.requests (h.running.evidenced e);
    };
    committed = h.committed;
  })

  pub purge_old_requests-Keeps : (ctx : Context) → Keeps P base (purge_old_requests P ctx)
  unfolding purge_old_requests
  purge_old_requests-Keeps ctx s h =
      let old = rows_where (is_purgeable P ctx (cutoff_of P ctx s.db)) s.db.requests in
      after (delete_all P ctx old s) _ (delete_all-Keeps ctx old s h)
        λ _ s1 h1. when-Keeps (not (no_rows old)) commit commit-Keeps s1 h1

  queued : (r : Result Done) (mail : Mail) → Keeps P base (lift r >> enqueue mail)
  queued (ok a) mail s h = record { running = h.running; committed = h.committed }
  queued (err e) mail s h = h

  pub queue_mail-Keeps : (mail : Mail) → Keeps P base (queue_mail P mail)
  queue_mail-Keeps mail = queued (P.send mail) mail

  warn_admins-Keeps :
      (ctx : Context) (p : Profile) (days : ℕ) (users : List String)
      → Keeps P base (warn_admins P ctx p days users)
  unfolding warn_admins
  warn_admins-Keeps ctx p days [] s h = h
  warn_admins-Keeps ctx p days (u ∷ rest) s h =
      after (queue_mail P _ s) _ (queue_mail-Keeps _ s h)
        λ _ s1 h1. warn_admins-Keeps ctx p days rest s1 h1

  warn_all-Keeps :
      (ctx : Context) (days : List ℕ) (profiles : List Profile)
      → Keeps P base (warn_all P ctx days profiles)
  unfolding warn_all
  warn_all-Keeps ctx days [] s h = h
  warn_all-Keeps ctx days (p ∷ rest) s h =
      let warn = warn_admins P ctx p (days_left P ctx p) (P.users_with_role "DSC Administrator") in
      after (when (p.is_active && is_due P ctx days p) warn s) _
        (when-Keeps (p.is_active && is_due P ctx days p) warn (warn_admins-Keeps ctx p _ _) s h)
        λ _ s1 h1. warn_all-Keeps ctx days rest s1 h1

  pub notify_upcoming_expiries-Keeps :
      (ctx : Context) → Keeps P base (notify_upcoming_expiries P ctx)
  unfolding notify_upcoming_expiries
  notify_upcoming_expiries-Keeps ctx s h =
      when-Keeps s.db.settings.enable_expiry_warnings
        (warn_all P ctx s.db.settings.expiry_warning_days s.db.profiles)
        (warn_all-Keeps ctx s.db.settings.expiry_warning_days s.db.profiles) s h
