-- ===== src/System/Keeping/Initiate.antt =====
-- api/signing.py: what initiate keeps.
use frappe_dsc.Base.{
  String, ◌==◌, ◌||◌, not, Option, some, none, refl, get_or, truthy, starts_with, is_some, eqb,
}
use frappe_dsc.Site.{
  Settings, SigningRequest, Profile, Geocode, Error, pure, lift, or_raise, raise_if, Platform,
  Context, HookCall, get_document, get_file_by_url,
}
use frappe_dsc.Secrets.{get_or_create_hmac_secret}
use frappe_dsc.Engine.{Prepared, prepare_pdf_for_signing}
use frappe_dsc.Signing.Hooks.{run_dev_hooks}
use frappe_dsc.Signing.Initiate.{
  InitiateCall, PendingRequest, Position, normalise, pending_request, check_signer, check_location,
  check_certificate, read_uploaded_pdf, default_template, load_template, uploaded_document,
  uploaded_pdf, read_position, in_progress_row, log_location, record_hash, start_signing, initiate,
}
use frappe_dsc.System.Keeping.{
  Baseline, IsEvidenced, Keeps, unsigned-IsEvidenced, log_event-IsSound, update-IsSound, after,
  branches, or_raise-Keeps,
}
use frappe_dsc.System.Keeping.Lifecycle.{HooksKeep, run_dev_hooks-Keeps}
use frappe_dsc.System.Keeping.Guards.{
  get_or_create_hmac_secret-Keeps, check_signer-Keeps, check_location-Keeps,
  check_certificate-Keeps,
}
use frappe_dsc.System.Keeping.Preparing.{prepare-Keeps}

module _ (P : Platform) (base : Baseline) (ctx : Context) where
  load_template-Keeps : (name : Option String) → Keeps P base (load_template name)
  unfolding load_template
  load_template-Keeps name s h =
      branches (truthy name) _ (pure default_template) (or_raise-Keeps _ _) (λ s1 h1. h1) s h

  read_uploaded_pdf-Keeps : (url : Option String) → Keeps P base (read_uploaded_pdf url)
  unfolding read_uploaded_pdf
  read_uploaded_pdf-Keeps url s h =
      after (raise_if (not (truthy url)) Error.no_pdf_uploaded s) _ h λ _ s1 h1.
        after (get_file_by_url (get_or url "") s1) _ (or_raise-Keeps _ _ s1 h1) λ file s2 h2.
          after (raise_if (not (starts_with file.content "%PDF")) Error.invalid_pdf s2) _ h2
            λ _ s3 h3. h3

  uploaded_document-Keeps : (docname : String) → Keeps P base (uploaded_document docname)
  unfolding uploaded_document
  uploaded_document-Keeps docname s h =
      after (get_document docname s) _ (or_raise-Keeps _ _ s h) λ doc s1 h1.
        after (read_uploaded_pdf doc.uploaded_pdf s1) _
          (read_uploaded_pdf-Keeps doc.uploaded_pdf s1 h1)
          λ bytes s2 h2.
            after
              (raise_if (eqb doc.sig_width 0 || eqb doc.sig_height 0) Error.no_signature_position
                s2)
              _ h2 λ _ s3 h3. record { running = h3.running; committed = h3.committed }

  uploaded_pdf-Keeps : (doctype docname : String) → Keeps P base (uploaded_pdf doctype docname)
  unfolding uploaded_pdf
  uploaded_pdf-Keeps doctype docname =
      branches (doctype == "DSC Document Sign") (uploaded_document docname) (pure none)
        (uploaded_document-Keeps docname) (λ s h. h)

  in_progress-IsEvidenced :
      (p : Position) (g : Option Geocode) (r : SigningRequest)
      → IsEvidenced (record (in_progress_row P ctx p g r) { modified = ctx.now })
  in_progress-IsEvidenced p none r =
      unsigned-IsEvidenced (record (in_progress_row P ctx p none r) { modified = ctx.now }) refl
  in_progress-IsEvidenced p (some g) r =
      unsigned-IsEvidenced (record (in_progress_row P ctx p (some g) r) { modified = ctx.now }) refl

  log_location-Keeps :
      (name : String) (p : Position) (g : Option Geocode)
      → Keeps P base (log_location P ctx name p g)
  unfolding log_location
  log_location-Keeps name p none s h = h
  log_location-Keeps name p (some g) s h = record {
    running = log_event-IsSound _ h.running refl;
    committed = h.committed;
  }

  record_hash-Keeps :
      (name : String) (settings : Settings) (result : Prepared) (p : Position) (g : Option Geocode)
      → Keeps P base (record_hash P ctx name settings result p g)
  unfolding record_hash
  record_hash-Keeps name settings result p g s h =
      after (log_location P ctx name p g _) _
        (log_location-Keeps name p g _ (record {
          running =
              update-IsSound name
                (λ r. record r {
                  hash_algorithm = some result.hash_algorithm;
                  hash_to_be_signed = some result.hash_to_sign;
                  modified = ctx.now;
                })
                h.running (λ r k. k);
          committed = h.committed;
        }))
        λ _ s1 h1. record {
          running = log_event-IsSound _ (log_event-IsSound _ h1.running refl) refl;
          committed = h1.committed;
        }

  start_signing-Keeps :
      HooksKeep P base
      → (call : InitiateCall) (cert : String) (r : PendingRequest) (profile : Profile)
        (settings : Settings) (g : Option Geocode)
      → Keeps P base (start_signing P ctx call cert r profile settings g)
  unfolding start_signing
  start_signing-Keeps hooks call cert r profile settings g s h =
      after (load_template r.signature_template s) _ (load_template-Keeps r.signature_template s h)
        λ template s1 h1.
          after (uploaded_pdf call.doctype call.docname s1) _
            (uploaded_pdf-Keeps call.doctype call.docname s1 h1)
            λ uploaded s2 h2.
              after (lift (read_position P call (is_some g)) s2) _ h2 λ position s3 h3.
                let hook : HookCall = record {
                  signing_request = r.name;
                  doctype = call.doctype;
                  docname = call.docname;
                  profile = r.profile;
                  file_url = none;
                  reason = none;
                } in
                after (run_dev_hooks P "dsc_before_sign" hook _) _
                  (run_dev_hooks-Keeps P base hooks "dsc_before_sign" hook _ (record {
                    running =
                        update-IsSound r.name
                          (λ q. record (in_progress_row P ctx position g q) { modified = ctx.now })
                          h3.running (λ q _. in_progress-IsEvidenced position g q);
                    committed = h3.committed;
                  }))
                  λ _ s4 h4.
                    after (check_certificate P ctx profile cert s4) _
                      (check_certificate-Keeps P base ctx profile cert s4 h4)
                      λ der s5 h5.
                        after (prepare_pdf_for_signing P ctx _ s5) _
                          (prepare-Keeps P base ctx _ s5 h5)
                          λ result s6 h6.
                            after (record_hash P ctx r.name settings result position g s6) _
                              (record_hash-Keeps r.name settings result position g s6 h6)
                              λ _ s7 h7.
                                after (get_or_create_hmac_secret ctx s7) _
                                  (get_or_create_hmac_secret-Keeps P base ctx s7 h7)
                                  λ secret s8 h8. h8

  pub initiate-Keeps : HooksKeep P base → (call : InitiateCall) → Keeps P base (initiate P ctx call)
  unfolding initiate
  initiate-Keeps hooks call s h =
      after (raise_if (not (truthy call.cert_der_b64)) Error.certificate_required s) _ h λ _ s1 h1.
        after
          (or_raise (pending_request call.doctype call.docname s1.db)
            (Error.no_pending_request call.doctype call.docname) s1)
          _ (or_raise-Keeps _ _ s1 h1)
          λ r s2 h2.
            after (check_signer P ctx r s2) _ (check_signer-Keeps P base ctx r s2 h2)
              λ profile s3 h3.
                after
                  (check_location P ctx (normalise call.signer_lat) (normalise call.signer_lng) s3)
                  _
                  (check_location-Keeps P base ctx (normalise call.signer_lat)
                    (normalise call.signer_lng) s3 h3)
                  λ g s4 h4.
                    start_signing-Keeps hooks call (get_or call.cert_der_b64 "") r profile
                      s3.db.settings g s4 h4
