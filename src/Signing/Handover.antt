-- ===== src/Signing/Handover.antt =====
-- api/signing.py: how the session that initiate opens comes to finalize, and what becomes of it.
pub mod Sessions
use frappe_dsc.Base.{
  ◌+◌, ◌<◌, ◌≤◌, String, ◌<>◌, ◌≡◌, refl, sym, ap, ◌∙◌, Option, none, some, List, [], ◌∷◌, true,
  ltb, get_or, arith, eq_refl, Every, not, truthy, is_some,
}
use frappe_dsc.Site.{
  Settings, Status, Site, SigningRequest, Session, Cached, Profile, Geocode, Error, Result, ok, err,
  Action, Done, handle, continue, try_except, raise_if, or_raise, Platform, Context, HookCall,
  cached, log_error, request_at,
}
use frappe_dsc.Site.Inversion.{went_through, at_end, lift-returns, pure-returns}
use frappe_dsc.Engine.{
  Prepared, PrepareRequest, prepare_pdf_for_signing, pdf_to_sign, signature_spot, session_key,
  session_ttl_seconds, stored,
}
use frappe_dsc.Secrets.{get_or_create_hmac_secret}
use frappe_dsc.Signing.Hooks.{run_handlers, run_dev_hooks}
use frappe_dsc.Signing.Initiate.{
  InitiateCall, InitiateReply, PendingRequest, pending_request, check_signer, check_location,
  check_certificate, start_signing, load_template, uploaded_pdf, read_position, record_hash,
  initiate, Position,
}
use frappe_dsc.Signing.Finalize.{FinalizeCall, FinalizeReply, finalize}
use frappe_dsc.Signing.Finalize.Success.{finalize_signs}
use frappe_dsc.Signing.Handover.Sessions.{
  SparesSessions, run_dev_hooks-sessions, cached-later, cached-stored, prepare-stores,
  record_hash-sessions, secret-sessions, check_certificate-returns,
}

module _ (P : Platform) (ctx : Context) where
  -- A finalize that returned is not repeated: the same session does not sign again, whoever shows
  -- it and whatever with, at no earlier time, and nothing changes, as long as developer hooks do
  -- not touch the sessions in the cache.
  pub finalize_once :
      (call again : FinalizeCall) (later : Context) (s : Site) {reply : FinalizeReply} {t : Site}
      → SparesSessions P
      → finalize P ctx call s ≡ (ok reply, t)
      → again.session_id ≡ call.session_id
      → ctx.now ≤ later.now
      → finalize P later again t ≡ (err Error.session_expired, t)
  unfolding finalize
  finalize_once call again later s {t = t} spares h same le =
      let (session, req, u, hook, live, found, admits, commits, signed, status, ended) =
        finalize_signs P ctx call s h in
      let gone : cached later (session_key again.session_id) t.sessions ≡ none =
        ap (λ k. cached later (session_key k) t.sessions) same
        ∙ ap (cached later (session_key call.session_id))
            (ap (λ z. z.sessions) ended ∙ run_dev_hooks-sessions P spares "dsc_after_sign" hook u)
        ∙ cached-later ctx later (session_key call.session_id) u.sessions le commits.4 in
      rw gone refl

  -- A live session in the cache, about the request of the reply, with the certificate of the call.
  abbrev pub HandsOver : Context → InitiateCall → String → InitiateReply → Site → Type 0
  HandsOver later call cert reply t =
      (session : Session) × (cached later (session_key reply.session_id) t.sessions ≡ some session)
      × (session.signing_request_name ≡ reply.signing_request)
      × (session.doctype ≡ call.doctype)
      × (session.docname ≡ call.docname)
      × (P.b64decode cert ≡ ok session.cert_der)

  start_signing-hands :
      (call : InitiateCall) (cert : String) (r : PendingRequest) (p : Profile) (settings : Settings)
      (g : Option Geocode) (later : Context) (s : Site) {reply : InitiateReply} {t : Site}
      → later.now < ctx.now + session_ttl_seconds
      → start_signing P ctx call cert r p settings g s ≡ (ok reply, t)
      → HandsOver later call cert reply t
  unfolding start_signing
  start_signing-hands call cert r p settings g later s {reply} {t} soon h =
      went_through (load_template r.signature_template s) h λ template s1 e1 h1.
        went_through (uploaded_pdf call.doctype call.docname s1) h1 λ uploaded s2 e2 h2.
          went_through (read_position P call (is_some g), s2) h2
            λ position s3 e3 h3.
              went_through (run_dev_hooks P "dsc_before_sign" _ _) h3 λ _ s4 e4 h4.
                went_through (check_certificate P ctx p cert s4) h4 λ der s5 e5 h5.
                  went_through (prepare_pdf_for_signing P ctx _ s5) h5 λ result s6 e6 h6.
                    went_through (record_hash P ctx r.name settings result position g s6) h6
                      λ _ s7 e7 h7.
                        went_through (get_or_create_hmac_secret ctx s7) h7 λ secret s8 e8 h8.
                          let (id, session, u, put, about, doctype, docname, cert_der) =
                            prepare-stores P ctx _ s5 e6 in
                          let hashed : s7.sessions ≡ s6.sessions =
                            at_end (λ z. z.sessions ≡ s6.sessions) e7
                              (record_hash-sessions P ctx r.name settings result position g s6) in
                          let kept : s8.sessions ≡ s7.sessions =
                            at_end (λ z. z.sessions ≡ s7.sessions) e8 (secret-sessions P ctx s7) in
                          let (answer, ended) = pure-returns _ s8 h8 in
                          let named : reply.session_id ≡ ctx.uuid =
                            ap (λ z. z.session_id) (sym answer) ∙ id in
                          (
                            session,
                            ap (λ k. cached later (session_key k) t.sessions) named
                                ∙ ap (cached later (session_key ctx.uuid))
                                    (ap (λ z. z.sessions) (sym ended) ∙ kept ∙ hashed ∙ put)
                                ∙ cached-stored ctx later ctx.uuid session u.sessions soon,
                            about ∙ ap (λ z. z.signing_request) answer,
                            doctype,
                            docname,
                            check_certificate-returns P ctx p cert s4 e5 ∙ ap ok (sym cert_der),
                          )

  -- Whoever gets a hash to sign finds, for the next 600 seconds, the session in the cache under the
  -- id of the reply: it is about the request and the document of the call, and holds the certificate
  -- that the caller gave.
  pub initiate-HandsOver :
      (call : InitiateCall) (later : Context) (s : Site) {reply : InitiateReply} {t : Site}
      → later.now < ctx.now + session_ttl_seconds
      → initiate P ctx call s ≡ (ok reply, t)
      → HandsOver later call (get_or call.cert_der_b64 "") reply t
  unfolding initiate
  initiate-HandsOver call later s soon h =
      went_through (raise_if (not (truthy call.cert_der_b64)) Error.certificate_required s) h
        λ _ s0 e0 h0.
          went_through (or_raise (pending_request call.doctype call.docname s0.db) _ s0) h0
            λ r s1 e1 h1. went_through (check_signer P ctx r s1) h1 λ p s2 e2 h2.
              went_through (check_location P ctx _ _ s2) h2 λ g s3 e3 h3.
                start_signing-hands call (get_or call.cert_der_b64 "") r p s2.db.settings g later s3
                  soon h3

some_injective : {a b : Session} → some a ≡ some b → a ≡ b
some_injective h = cc

module _ (P : Platform) (later : Context) where
  -- The state that a finalize commits, and that the hooks get.
  abbrev pub SignsFor : InitiateCall → String → Site → Type 0
  SignsFor call request u =
      (q : SigningRequest) × (der : String) × (request_at request u ≡ some q)
      × (q.status ≡ Status.signed)
      × (q.actual_signer_user ≡ some later.user)
      × (P.b64decode (get_or call.cert_der_b64 "") ≡ ok der)
      × (q.certificate_fingerprint_presented ≡ some (P.sha256 der))
      × (u.durable ≡ u.db)

module _ (P : Platform) (ctx later : Context) where
  -- The two halves of the flow are about one request: a finalize that returns, with the session id
  -- that initiate gave and within 600 seconds, in a state with the same sessions in the cache,
  -- whatever has happened to the database meanwhile, commits the request of that initiate as
  -- Signed, by the caller of finalize, with the fingerprint of the certificate that was given to
  -- initiate, and only hooks run after that.
  pub flow_signs :
      (call : InitiateCall) (finish : FinalizeCall) (s t' : Site) {reply : InitiateReply}
      {done : FinalizeReply} {t u : Site}
      → later.now < ctx.now + session_ttl_seconds
      → initiate P ctx call s ≡ (ok reply, t)
      → t'.sessions ≡ t.sessions
      → finish.session_id ≡ reply.session_id
      → finalize P later finish t' ≡ (ok done, u)
      → (v : Site) × (hook : HookCall) × SignsFor P later call reply.signing_request v
        × (u ≡ (run_dev_hooks P "dsc_after_sign" hook v).1)
  flow_signs call finish s t' {reply} {t = t} soon started same id finished =
      let (given, held, about, doctype, docname, der) =
        initiate-HandsOver P ctx call later s soon started in
      let (session, req, v, hook, live, found, admits, commits, signed, status, ended) =
        finalize_signs P later finish t' finished in
      let one : given ≡ session = some_injective (
        sym held
        ∙ ap (λ k. cached later (session_key k) t.sessions) (sym id)
        ∙ ap (cached later (session_key finish.session_id)) (sym same)
        ∙ live) in
      let name : session.signing_request_name ≡ reply.signing_request =
        ap (λ x. x.signing_request_name) (sym one) ∙ about in
      (
        v,
        hook,
        (
          commits.0,
          session.cert_der,
          ap (λ n. request_at n v) (sym name) ∙ commits.1,
          commits.2.0,
          commits.2.1,
          der ∙ ap (λ x. ok x.cert_der) one,
          commits.2.4,
          commits.3,
        ),
        ended,
      )
