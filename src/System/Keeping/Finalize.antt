-- ===== src/System/Keeping/Finalize.antt =====
-- api/signing.py: what finalize keeps.
use frappe_dsc.Base.{String, ◌==◌, Option, some, none, refl, take_text}
use frappe_dsc.Site.{
  DocumentStatus, SigningRequest, File, Error, text_of, Action, Done, lift, when, or_raise,
  try_except, cached, Platform, Context, HookCall, get_request, log_error,
}
use frappe_dsc.Engine.{
  session_key, SignedPdf, finalize_signed_pdf, save_signed_pdf, verify_signed_pdf,
}
use frappe_dsc.Signing.Hooks.{run_dev_hooks}
use frappe_dsc.Signing.Lifecycle.{mirror_status}
use frappe_dsc.Signing.Notices.{
  add_timeline_entry, notify_admins_of_failure, send_signed_notification,
}
use frappe_dsc.Signing.Finalize.{
  FinalizeCall, chain_of, presented_fingerprint, expected_fingerprint, is_mismatch,
  reject_certificate, require_signature, signed_row, mirror_signed, complete, record_failure,
  log_presented, finalize,
}
use frappe_dsc.System.Keeping.{
  Baseline, IsEvidenced, Keeps, log_event-IsSound, update-IsSound, after, tried, when-Keeps,
  or_raise-Keeps, get_request-Keeps,
}
use frappe_dsc.System.Keeping.Lifecycle.{
  HooksKeep, log_error-Keeps, run_dev_hooks-Keeps, mirror_status-Keeps,
}
use frappe_dsc.System.Keeping.Steps.{
  finalize_signed_pdf-Keeps, save_signed_pdf-Keeps, verify_signed_pdf-Keeps,
  add_timeline_entry-Keeps, send_signed_notification-Keeps, notify_admins_of_failure-Keeps,
  reject_certificate-Keeps, require_signature-Keeps, marked, marked-IsKept,
}

module _ (P : Platform) (base : Baseline) (hooks : HooksKeep P base) (ctx : Context) where
  -- Whatever a notice does, its failure is logged.
  notice-Keeps :
      (m : Action Done) (title : String)
      → Keeps P base m
      → Keeps P base (try_except m (λ e. log_error title))
  notice-Keeps m title km s h = tried (m s) _ (km s h) (λ e. log_error-Keeps P base title)

  signed-IsEvidenced :
      (call : FinalizeCall) (signed : SignedPdf) (file : File) (r : SigningRequest)
      → IsEvidenced (record (signed_row P ctx call signed file r) { modified = ctx.now })
  unfolding signed_row
  signed-IsEvidenced call signed file r e = (refl, refl, refl, refl)

  mirror_signed-Keeps :
      (signed : SignedPdf) (file : File) → Keeps P base (mirror_signed P ctx signed file)
  unfolding mirror_signed
  mirror_signed-Keeps signed file =
      when-Keeps (signed.doctype == "DSC Document Sign") _
        λ s h. record { running = h.running; committed = h.committed }

  complete-Keeps : (call : FinalizeCall) (name : String) → Keeps P base (complete P ctx call name)
  unfolding complete
  complete-Keeps call name s h =
      let chain = chain_of P call.chain in
      after (finalize_signed_pdf P ctx call.session_id call.signature_bytes_b64 chain s) _
        (finalize_signed_pdf-Keeps P base ctx call.session_id call.signature_bytes_b64 chain s h)
        λ signed s1 h1.
          after (verify_signed_pdf P signed.signed_pdf_bytes s1) _
            (verify_signed_pdf-Keeps P base signed.signed_pdf_bytes s1 h1)
            λ v s2 h2.
              after (require_signature P ctx name v _) _
                (require_signature-Keeps P base ctx name v _ (record {
                  running = log_event-IsSound _ h2.running refl;
                  committed = h2.committed;
                }))
                λ _ s3 h3.
                  after (save_signed_pdf P ctx signed s3) _
                    (save_signed_pdf-Keeps P base ctx signed s3 h3)
                    λ file s4 h4.
                      after (mirror_signed P ctx signed file _) _
                        (mirror_signed-Keeps signed file _ (record {
                          running =
                              update-IsSound name
                                (λ r. record (signed_row P ctx call signed file r) {
                                  modified = ctx.now;
                                })
                                h4.running (λ r _. signed-IsEvidenced call signed file r);
                          committed = h4.committed;
                        }))
                        λ _ s5 h5.
                          after (add_timeline_entry P ctx signed.doctype signed.docname name _) _
                            (add_timeline_entry-Keeps P base ctx signed.doctype signed.docname name
                              _
                              (record {
                                running = log_event-IsSound _ h5.running refl;
                                committed = h5.committed;
                              }))
                            λ _ s6 h6.
                              let notice =
                                send_signed_notification P ctx signed.doctype signed.docname name in
                              after
                                (try_except notice
                                  (λ e. log_error "DSC: signed notification email failed") s6)
                                _
                                (notice-Keeps notice _
                                  (send_signed_notification-Keeps P base ctx signed.doctype
                                    signed.docname name)
                                  s6 h6)
                                λ _ s7 h7.
                                  let hook : HookCall = record {
                                    signing_request = name;
                                    doctype = signed.doctype;
                                    docname = signed.docname;
                                    profile = none;
                                    file_url = some file.file_url;
                                    reason = none;
                                  } in
                                  after (run_dev_hooks P "dsc_after_sign" hook _) _
                                    (run_dev_hooks-Keeps P base hooks "dsc_after_sign" hook _
                                      (record { running = h7.running; committed = h7.running }))
                                    λ _ s8 h8. h8

  record_failure-Keeps :
      (req : SigningRequest) (name : String) (e : Error)
      → Keeps P base (record_failure P ctx req name e)
  unfolding record_failure
  record_failure-Keeps req name e s h =
      let reason = take_text 500 (text_of e) in
      after (mirror_status req DocumentStatus.failed (marked P base ctx name reason s)) _
        (mirror_status-Keeps P base req DocumentStatus.failed (marked P base ctx name reason s)
          (marked-IsKept P base ctx name reason s h))
        λ _ s1 h1.
          let notice = notify_admins_of_failure P ctx name in
          after
            (try_except notice (λ e'. log_error "DSC: admin failure-notification email failed") _) _
            (notice-Keeps notice _ (notify_admins_of_failure-Keeps P base ctx name) _
              (record { running = log_event-IsSound _ h1.running refl; committed = h1.committed }))
            λ _ s2 h2. record { running = h2.running; committed = h2.running }

  log_presented-Keeps :
      (call : FinalizeCall) (name : String) (presented : Option String)
      → Keeps P base (log_presented P ctx call name presented)
  unfolding log_presented
  log_presented-Keeps call name presented s h = record {
    running = log_event-IsSound _ (log_event-IsSound _ h.running refl) refl;
    committed = h.committed;
  }

  pub finalize-Keeps : (call : FinalizeCall) → Keeps P base (finalize P ctx call)
  unfolding finalize
  finalize-Keeps call s h =
      let found = cached ctx (session_key call.session_id) s.sessions in
      after (or_raise found Error.session_expired s) _ (or_raise-Keeps found _ s h) λ session s1 h1.
        let name = session.signing_request_name in
        after (lift (presented_fingerprint P call.cert_der_b64) s1) _ h1 λ presented s2 h2.
          let s3 = (log_presented P ctx call name presented s2).1 in
          after (get_request name s3) _
            (get_request-Keeps name s3 (log_presented-Keeps call name presented s2 h2))
            λ req s4 h4.
              let expected = expected_fingerprint req s4.db in
              after
                (when (is_mismatch expected presented)
                  (reject_certificate P ctx name expected presented) s4)
                _
                (when-Keeps (is_mismatch expected presented)
                  (reject_certificate P ctx name expected presented)
                  (reject_certificate-Keeps P base ctx name expected presented) s4 h4)
                λ _ s5 h5.
                  tried (complete P ctx call name s5) _ (complete-Keeps call name s5 h5)
                    (record_failure-Keeps req name)
