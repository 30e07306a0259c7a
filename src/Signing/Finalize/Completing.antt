-- ===== src/Signing/Finalize/Completing.antt =====
-- api/signing.py, finalize: what the body of the `try` stores when it returns.
use mathlib.Core.Path.{subst}
use frappe_dsc.Base.{String, ◌≡◌, refl, sym, ap, ◌∙◌, false, none, some, arith, find_row}
use frappe_dsc.Site.{
  Status, Site, SigningRequest, Session, ok, Done, commit, try_except, Platform, Context, HookCall,
  cached, set_request, request_at,
}
use frappe_dsc.Site.Inversion.{went_through, at_end, pure-returns}
use frappe_dsc.Engine.{
  Verification, finalize_signed_pdf, verify_signed_pdf, save_signed_pdf, session_key,
}
use frappe_dsc.Engine.Sessions.Consuming.{cached-delete_value}
use frappe_dsc.Signing.Hooks.{run_dev_hooks}
use frappe_dsc.Signing.Notices.{add_timeline_entry, send_signed_notification}
use frappe_dsc.Signing.Finalize.{
  FinalizeCall, FinalizeReply, chain_of, is_unsigned, require_signature, signed_row, mirror_signed,
  complete,
}
use frappe_dsc.Base.Queries.{IsIn}
use frappe_dsc.Signing.Finalize.Filing.{
  SameFiles, IsFiled, save-stores, logged-files, mirror-files, timeline-files, notification-files,
}
use frappe_dsc.Signing.Finalize.Steps.{
  SameRequests, sign-returns, verify-same, save-same, mirror-same, timeline-same, notification-same,
  logged-same, request-set_request,
}

-- The evidence of a signature by the user of the request, with the certificate of the session.
abbrev pub IsSigned : Platform → Context → FinalizeCall → Session → SigningRequest → Type 0
IsSigned P ctx call session q =
    (q.status ≡ Status.signed)
    × (q.actual_signer_user ≡ some ctx.user)
    × (q.signed_on ≡ some ctx.later)
    × (q.signature_bytes ≡ some call.signature_bytes_b64)
    × (q.certificate_fingerprint_presented ≡ some (P.sha256 session.cert_der))
    × (q.ocsp_response_b64 ≡ call.ocsp_der_b64)

pub joins : (s t u : Site) → SameRequests s t → SameRequests t u → SameRequests s u
joins s t u a b = (b.0 ∙ a.0, b.1 ∙ a.1)

module _ (P : Platform) (ctx : Context) (call : FinalizeCall) (name : String)
    (session : Session) where
  -- The state that is committed, and that the hooks get.
  abbrev pub Commits : Site → Site → Type 0
  Commits s u =
      (q : SigningRequest) × (request_at name u ≡ some q)
      × IsSigned P ctx call session q
      × (u.durable ≡ u.db)
      × (cached ctx (session_key call.session_id) u.sessions ≡ none)

  pub require_signature-returns :
      (v : Verification) (s : Site) {d : Done} {t : Site}
      → require_signature P ctx name v s ≡ (ok d, t)
      → (is_unsigned v ≡ false) × (t ≡ s)
  unfolding require_signature
  require_signature-returns v s h = ground arith

  pub complete-returns :
      (s : Site) (req : SigningRequest) {reply : FinalizeReply} {t : Site}
      → cached ctx (session_key call.session_id) s.sessions ≡ some session
      → request_at name s ≡ some req
      → complete P ctx call name s ≡ (ok reply, t)
      → (u : Site) × (hook : HookCall) × Commits s u
        × IsFiled P name u reply
        × (reply.status ≡ Status.signed)
        × (t ≡ (run_dev_hooks P "dsc_after_sign" hook u).1)
  unfolding complete signed_row
  complete-returns s req live found h =
      went_through
        (finalize_signed_pdf P ctx call.session_id call.signature_bytes_b64 (chain_of P call.chain)
          s)
        h
        λ signed s1 e1 h1.
          went_through (verify_signed_pdf P signed.signed_pdf_bytes s1) h1 λ v s2 e2 h2.
            went_through (require_signature P ctx name v _) h2 λ _ s3 e3 h3.
              went_through (save_signed_pdf P ctx signed s3) h3 λ file s4 e4 h4.
                went_through
                  (mirror_signed P ctx signed file
                    (set_request ctx name (signed_row P ctx call signed file) s4).1)
                  h4
                  λ _ s5 e5 h5.
                    went_through (add_timeline_entry P ctx signed.doctype signed.docname name _) h5
                      λ _ s6 e6 h6.
                        went_through
                          (try_except
                            (send_signed_notification P ctx signed.doctype signed.docname name) _
                            s6)
                          h6
                          λ _ s7 e7 h7.
                            went_through (run_dev_hooks P "dsc_after_sign" _ _) h7 λ _ s8 e8 h8.
                              let (print, base, dropped) =
                                sign-returns P ctx call.session_id call.signature_bytes_b64
                                  (chain_of P call.chain) s session live e1 in
                              let (checked, logged) = require_signature-returns v _ e3 in
                              let verified : SameRequests s1 s2 =
                                at_end (SameRequests s1) e2
                                  (verify-same P ctx signed.signed_pdf_bytes s1) in
                              let kept : SameRequests s2 s3 =
                                (ap (λ z. z.db.requests) logged, ap (λ z. z.sessions) logged) in
                              let filed : SameRequests s3 s4 =
                                at_end (SameRequests s3) e4 (save-same P ctx signed s3) in
                              let before : SameRequests s1 s4 =
                                joins s1 s2 s4 verified (joins s2 s3 s4 kept filed) in
                              let marked : Site =
                                (set_request ctx name (signed_row P ctx call signed file) s4).1 in
                              let mirrored : SameRequests marked s5 =
                                at_end (SameRequests marked) e5
                                  (mirror-same P ctx signed file marked) in
                              let noted : SameRequests s5 s6 =
                                at_end (SameRequests s5) e6
                                  (timeline-same P ctx signed.doctype signed.docname name _) in
                              let told : SameRequests s6 s7 = at_end (SameRequests s6) e7 (
                                logged-same
                                  (send_signed_notification P ctx signed.doctype signed.docname
                                    name)
                                  _ s6
                                  (notification-same P ctx signed.doctype signed.docname name
                                    s6)) in
                              let after : SameRequests marked s7 =
                                joins marked s5 s7 mirrored (joins s5 s6 s7 noted told) in
                              let there : request_at name s4 ≡ some req =
                                ap (find_row (λ r. r.name) name)
                                  (before.0 ∙ ap (λ d. d.requests) base)
                                ∙ found in
                              let (answer, ended) = pure-returns _ s8 h8 in
                              let (stored, content) = save-stores P ctx signed s3 e4 in
                              let same_files : SameFiles s4 s7 =
                                at_end (SameFiles s6) e7 (
                                  logged-files
                                    (send_signed_notification P ctx signed.doctype signed.docname
                                      name)
                                    _ s6
                                    (notification-files P ctx signed.doctype signed.docname name
                                      s6))
                                ∙ at_end (SameFiles s5) e6
                                    (timeline-files P ctx signed.doctype signed.docname name _)
                                ∙ at_end (SameFiles marked) e5
                                    (mirror-files P ctx signed file marked) in
                              let verdict : (verify_signed_pdf P file.content s1).0 ≡ ok v =
                                ap (λ c. (verify_signed_pdf P c s1).0) content ∙ ap (λ p. p.0) e2 in
                              let row : request_at name s7 ≡ some _ =
                                ap (find_row (λ r. r.name) name) after.0
                                ∙ request-set_request ctx name (signed_row P ctx call signed file)
                                    s4 (λ r. refl) there in
                              (
                                (commit s7).1,
                                _,
                                (
                                  _,
                                  row,
                                  (refl, refl, refl, refl, ap some print, refl),
                                  refl,
                                  ap (cached ctx (session_key call.session_id))
                                        (after.1 ∙ before.1 ∙ dropped)
                                      ∙ cached-delete_value ctx (session_key call.session_id)
                                          s.sessions,
                                ),
                                (
                                  _,
                                  file,
                                  s1,
                                  row,
                                  refl,
                                  subst (IsIn file) (sym same_files) stored,
                                  ap (λ r. r.file_name) (sym answer),
                                  verdict ∙ ap (λ r. ok r.verification) answer,
                                  ap (λ r. is_unsigned r.verification) (sym answer) ∙ checked,
                                ),
                                ap (λ r. r.status) (sym answer),
                                sym ended ∙ ap (λ p. p.1) (sym e8),
                              )
