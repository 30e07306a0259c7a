-- ===== src/System/Keeping/Steps.antt =====
-- signing_engine.py and api/signing.py: what the steps of finalize keep.
use frappe_dsc.Base.{
  String, ◌==◌, ◌<>◌, Option, some, none, List, [], ◌∷◌, ◌++◌, refl, get_or, truthy,
}
use frappe_dsc.Site.{
  SigningRequest, Site, Error, text_of, Result, ok, err, Action, pure, lift, gets, or_raise,
  try_except, ◌>>=◌, Platform, Context, get_request, get_profile, get_file_by_url, set_request,
  Session,
}
use frappe_dsc.Engine.{
  builtin_anchors, uploaded_anchors, some_anchors, SignedPdf, pop_session, drop_if_found,
  load_chain, finalize_signed_pdf, choose_names, save_signed_pdf, Verification, not_verified,
  verify_signatures, load_trust_store, verify_signed_pdf,
}
use frappe_dsc.Signing.Notices.{
  owner_of, failure_recipients, mail_admins, mail_creator, add_timeline_entry,
  notify_admins_of_failure, send_signed_notification,
}
use frappe_dsc.Signing.Finalize.{
  mismatch_reason, is_unsigned, failed_row, reject_certificate, require_signature,
}
use frappe_dsc.System.Keeping.{
  Baseline, IsEvidenced, IsKept, Keeps, unsigned-IsEvidenced, log_event-IsSound, update-IsSound,
  after, tried, branches, when-Keeps, or_raise-Keeps, get_request-Keeps,
}
use frappe_dsc.System.Keeping.Rules.{send_now-Keeps}
use frappe_dsc.System.Keeping.Sweeps.{queue_mail-Keeps}

module _ (P : Platform) (base : Baseline) where
  drop_if_found-Keeps :
      (ctx : Context) (session_id : String) (found : Option Session)
      → Keeps P base (drop_if_found ctx session_id found)
  unfolding drop_if_found
  drop_if_found-Keeps ctx session_id none s h = h
  drop_if_found-Keeps ctx session_id (some session) s h = record {
    running = h.running;
    committed = h.committed;
  }

  pop_session-Keeps :
      (ctx : Context) (session_id : String) → Keeps P base (pop_session ctx session_id)
  unfolding pop_session
  pop_session-Keeps ctx session_id s h =
      after (drop_if_found ctx session_id _ s) _ (drop_if_found-Keeps ctx session_id _ s h)
        λ _ s1 h1. h1

  load_chain-Keeps : (chain : List String) → Keeps P base (load_chain P chain)
  unfolding load_chain
  load_chain-Keeps [] s h = h
  load_chain-Keeps (c ∷ rest) s h = after (lift (P.b64decode c) s) _ h λ der s1 h1.
      after (lift (P.load_certificate der) s1) _ h1
        λ _ s2 h2. after (load_chain P rest s2) _ (load_chain-Keeps rest s2 h2) λ ders s3 h3. h3

  pub finalize_signed_pdf-Keeps :
      (ctx : Context) (session_id signature : String) (chain : List String)
      → Keeps P base (finalize_signed_pdf P ctx session_id signature chain)
  unfolding finalize_signed_pdf
  finalize_signed_pdf-Keeps ctx session_id signature chain s h =
      after (pop_session ctx session_id s) _ (pop_session-Keeps ctx session_id s h) λ found s1 h1.
        after (or_raise found Error.session_expired s1) _ (or_raise-Keeps found _ s1 h1)
          λ session s2 h2. after (lift (P.b64decode signature) s2) _ h2 λ sig s3 h3.
            after (lift (P.load_certificate session.cert_der) s3) _ h3 λ _ s4 h4.
              after (load_chain P chain s4) _ (load_chain-Keeps chain s4 h4) λ certs s5 h5.
                after (lift (P.build_cms session.cert_der certs session.signed_attrs sig) s5) _ h5
                  λ cms s6 h6. after (lift (P.fill_with_cms _ cms) s6) _ h6 λ signed s7 h7. h7

  pub save_signed_pdf-Keeps :
      (ctx : Context) (signed : SignedPdf) → Keeps P base (save_signed_pdf P ctx signed)
  unfolding save_signed_pdf
  save_signed_pdf-Keeps ctx signed s h =
      after (choose_names P ctx signed s) _ h
        λ stored s1 h1. record { running = h1.running; committed = h1.committed }

  builtin_anchors-Keeps : (bundle : Option String) → Keeps P base (builtin_anchors P bundle)
  unfolding builtin_anchors
  builtin_anchors-Keeps none s h = h
  builtin_anchors-Keeps (some bundle) s h = h

  uploaded_anchors-Keeps : (url : Option String) → Keeps P base (uploaded_anchors P url)
  unfolding uploaded_anchors
  uploaded_anchors-Keeps url =
      branches (truthy url)
        (do file ← get_file_by_url (get_or url ""); lift (P.parse_pem file.content)) (pure [])
        (λ s h.
          after (get_file_by_url (get_or url "") s) _ (or_raise-Keeps _ _ s h) λ file s1 h1. h1)
        (λ s h. h)

  -- The body of the `try`.
  abbrev trust : Action (Option (List String))
  trust = do
    builtin ← builtin_anchors P P.builtin_bundle
    settings ← gets (λ d. d.settings)
    uploaded ← uploaded_anchors P settings.trust_store_bundle
    pure (some_anchors (builtin ++ uploaded))

  trust-Keeps : Keeps P base trust
  trust-Keeps s h =
      after (builtin_anchors P P.builtin_bundle s) _ (builtin_anchors-Keeps P.builtin_bundle s h)
        λ builtin s1 h1.
          after (uploaded_anchors P s1.db.settings.trust_store_bundle s1) _
            (uploaded_anchors-Keeps s1.db.settings.trust_store_bundle s1 h1) λ uploaded s2 h2. h2

  load_trust_store-Keeps : Keeps P base (load_trust_store P)
  unfolding load_trust_store
  load_trust_store-Keeps s h =
      tried (trust s) _ (trust-Keeps s h)
        λ e s1 h1. record { running = h1.running; committed = h1.committed }

  verify_signatures-Keeps : (sigs : List String) → Keeps P base (verify_signatures P sigs)
  unfolding verify_signatures
  verify_signatures-Keeps [] s h = h
  verify_signatures-Keeps (sig ∷ rest) s h =
      after (load_trust_store P s) _ (load_trust_store-Keeps s h) λ trust s1 h1. h1

  pub verify_signed_pdf-Keeps : (pdf : String) → Keeps P base (verify_signed_pdf P pdf)
  unfolding verify_signed_pdf
  verify_signed_pdf-Keeps pdf s h = found (P.embedded_signatures pdf)
    where
      found :
          (r : Result (List String))
          → IsKept P base
              (try_except
                (lift r >>= verify_signatures P)
                (λ e. pure (not_verified (text_of e)))
                s).1
      found (ok sigs) =
          tried (verify_signatures P sigs s) _ (verify_signatures-Keeps sigs s h) λ e s1 h1. h1
      found (err e) = h

  pub add_timeline_entry-Keeps :
      (ctx : Context) (doctype docname name : String)
      → Keeps P base (add_timeline_entry P ctx doctype docname name)
  unfolding add_timeline_entry
  add_timeline_entry-Keeps ctx doctype docname name s h =
      after (get_request name s) _ (get_request-Keeps name s h) λ req s1 h1.
        after (get_profile req.profile s1) _ (or_raise-Keeps _ _ s1 h1)
          λ profile s2 h2. record { running = h2.running; committed = h2.committed }

  mail_creator-Keeps :
      (ctx : Context) (creator doctype docname name : String)
      → Keeps P base (mail_creator P ctx creator doctype docname name)
  unfolding mail_creator
  mail_creator-Keeps ctx creator doctype docname name s h =
      after (get_request name s) _ (get_request-Keeps name s h) λ req s1 h1.
        after (get_profile req.profile s1) _ (or_raise-Keeps _ _ s1 h1)
          λ profile s2 h2. queue_mail-Keeps P base _ s2 h2

  pub send_signed_notification-Keeps :
      (ctx : Context) (doctype docname name : String)
      → Keeps P base (send_signed_notification P ctx doctype docname name)
  unfolding send_signed_notification
  send_signed_notification-Keeps ctx doctype docname name s h =
      after (or_raise (owner_of doctype docname s.db) (Error.does_not_exist doctype docname) s) _
        (or_raise-Keeps _ _ s h)
        λ creator s1 h1.
          branches (creator == ctx.user) (pure tt) (mail_creator P ctx creator doctype docname name)
            (λ s2 h2. h2) (mail_creator-Keeps ctx creator doctype docname name) s1 h1

  mail_admins-Keeps :
      (ctx : Context) (name : String) (users : List String)
      → Keeps P base (mail_admins P ctx name users)
  unfolding mail_admins
  mail_admins-Keeps ctx name [] s h = h
  mail_admins-Keeps ctx name (u ∷ rest) s h = send_now-Keeps P base _ s h

  pub notify_admins_of_failure-Keeps :
      (ctx : Context) (name : String) → Keeps P base (notify_admins_of_failure P ctx name)
  unfolding notify_admins_of_failure
  notify_admins_of_failure-Keeps ctx name =
      mail_admins-Keeps ctx name (failure_recipients P ctx (P.users_with_role "DSC Administrator"))

  failed-IsEvidenced :
      (ctx : Context) (reason : String) (r : SigningRequest)
      → IsEvidenced (record (failed_row reason r) { modified = ctx.now })
  unfolding failed_row
  failed-IsEvidenced ctx reason r =
      unsigned-IsEvidenced (record (failed_row reason r) { modified = ctx.now }) refl

  -- The request was marked as failed, and that was logged.
  abbrev pub marked : Context → String → String → Site → Site
  marked ctx name reason s = (set_request ctx name (failed_row reason) s).1

  pub marked-IsKept :
      (ctx : Context) (name reason : String) (s : Site)
      → IsKept P base s
      → IsKept P base (marked ctx name reason s)
  marked-IsKept ctx name reason s h = record {
    running =
        update-IsSound name (λ r. record (failed_row reason r) { modified = ctx.now }) h.running
          (λ r _. failed-IsEvidenced ctx reason r);
    committed = h.committed;
  }

  pub reject_certificate-Keeps :
      (ctx : Context) (name : String) (expected presented : Option String)
      → Keeps P base (reject_certificate P ctx name expected presented)
  unfolding reject_certificate
  reject_certificate-Keeps ctx name expected presented s h =
      let m = marked-IsKept ctx name mismatch_reason s h in
      record {
        running = log_event-IsSound _ m.running refl;
        committed = log_event-IsSound _ m.running refl;
      }

  pub require_signature-Keeps :
      (ctx : Context) (name : String) (v : Verification)
      → Keeps P base (require_signature P ctx name v)
  unfolding require_signature
  require_signature-Keeps ctx name v = when-Keeps (is_unsigned v) _ λ s h.
      let m =
        marked-IsKept ctx name ("Signed PDF verification failed: " <> get_or v.error "Unknown") s
          h in
      record { running = log_event-IsSound _ m.running refl; committed = m.committed }
