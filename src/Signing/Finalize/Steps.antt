-- ===== src/Signing/Finalize/Steps.antt =====
-- What the steps of finalize leave alone: the requests, and the sessions in the cache.
use frappe_dsc.Base.{String, ◌≡◌, refl, List, [], ◌∷◌, arith, some, ◌∙◌, update_row-found}
use frappe_dsc.Site.{
  Site, SigningRequest, Session, File, Result, ok, err, Action, Done, handle, try_except, Platform,
  Context, log_error, cached, set_request, request_at,
}
use frappe_dsc.Engine.{
  SignedPdf, load_chain, finalize_signed_pdf, load_trust_store, verify_signed_pdf, save_signed_pdf,
  pop_session, delete_value, session_key,
}
use frappe_dsc.Signing.Notices.{
  add_timeline_entry, notify_admins_of_failure, send_signed_notification,
}
use frappe_dsc.Signing.Finalize.{mirror_signed}

abbrev pub SameRequests : Site → Site → Type 0
SameRequests s t = (t.db.requests ≡ s.db.requests) × (t.sessions ≡ s.sessions)

module _ (ctx : Context) (name : String) where
  -- The row that `set_value` leaves.
  pub request-set_request :
      (f : SigningRequest → SigningRequest) (s : Site) {req : SigningRequest}
      → ((r : SigningRequest) → (f r).name ≡ r.name)
      → request_at name s ≡ some req
      → request_at name (set_request ctx name f s).1 ≡ some (record (f req) { modified = ctx.now })
  request-set_request f s keep found =
      update_row-found (λ r. r.name) name (λ r. record (f r) { modified = ctx.now }) s.db.requests
        (λ a h. keep a ∙ h) found

-- A step whose error is logged.
pub logged-same :
    (m : Action Done) (title : String) (s : Site)
    → SameRequests s (m s).1
    → SameRequests s (try_except m (λ e. log_error title) s).1
logged-same m title s same = ended (m s) same
  where
    ended :
        (p : Result Done × Site)
        → SameRequests s p.1
        → SameRequests s (handle (λ e. log_error title) p.0 p.1).1
    ended (ok a, t) same = same
    ended (err e, t) same = same

module _ (P : Platform) (ctx : Context) where
  load_chain-stays : (chain : List String) (s : Site) → (load_chain P chain s).1 ≡ s
  unfolding load_chain
  load_chain-stays [] s = refl
  load_chain-stays (c ∷ rest) s = ground (arith, load_chain-stays rest s)

  module _ (session_id bytes : String) (chain : List String) (s : Site) where
    pub sign-keeps_db : (finalize_signed_pdf P ctx session_id bytes chain s).1.db ≡ s.db
    unfolding finalize_signed_pdf pop_session
    sign-keeps_db = ground (
      arith,
      load_chain-stays chain
          (record s { sessions = delete_value (session_key session_id) s.sessions }),
    )

    pub sign-returns :
        (session : Session) {r : SignedPdf} {t : Site}
        → cached ctx (session_key session_id) s.sessions ≡ some session
        → finalize_signed_pdf P ctx session_id bytes chain s ≡ (ok r, t)
        → (r.certificate_fingerprint ≡ P.sha256 session.cert_der)
          × (t.db ≡ s.db)
          × (t.sessions ≡ delete_value (session_key session_id) s.sessions)
    unfolding finalize_signed_pdf pop_session
    sign-returns session found h = ground (
      arith,
      load_chain-stays chain
          (record s { sessions = delete_value (session_key session_id) s.sessions }),
    )

  pub verify-same : (pdf : String) (s : Site) → SameRequests s (verify_signed_pdf P pdf s).1
  unfolding verify_signed_pdf load_trust_store
  verify-same pdf s = ground arith

  pub save-same : (r : SignedPdf) (s : Site) → SameRequests s (save_signed_pdf P ctx r s).1
  unfolding save_signed_pdf
  save-same r s = ground arith

  pub mirror-same :
      (r : SignedPdf) (f : File) (s : Site) → SameRequests s (mirror_signed P ctx r f s).1
  unfolding mirror_signed
  mirror-same r f s = ground arith

  pub timeline-same :
      (doctype docname name : String) (s : Site)
      → SameRequests s (add_timeline_entry P ctx doctype docname name s).1
  unfolding add_timeline_entry
  timeline-same doctype docname name s = ground arith

  pub admins-same :
      (name : String) (s : Site) → SameRequests s (notify_admins_of_failure P ctx name s).1
  unfolding notify_admins_of_failure
  admins-same name s = ground arith

  pub notification-same :
      (doctype docname name : String) (s : Site)
      → SameRequests s (send_signed_notification P ctx doctype docname name s).1
  unfolding send_signed_notification
  notification-same doctype docname name s = ground arith
