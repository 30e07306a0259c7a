-- ===== src/Tests/Signing.antt =====
-- The signing flow on the sample site.
use frappe_dsc.Base.{
  ◌≡◌, ◌≢◌, refl, String, true, false, Option, none, some, List, [], ◌∷◌, Every, take_text, arith,
}
use frappe_dsc.Site.{
  Status, Site, Session, Error, text_of, Result, ok, err, serve, request_at, SigningRequest,
}
use frappe_dsc.Engine.{
  Verification, verify_signed_pdf, store_session, pop_session, get_session_info,
}
use frappe_dsc.Engine.Trust.Verifying.{verify_sound}
use frappe_dsc.Signing.Hooks.{run_dev_hooks}
use frappe_dsc.Signing.Hooks.Swallowing.{run_dev_hooks_ok}
use frappe_dsc.Signing.Lifecycle.Outcomes.{decline}
use frappe_dsc.Signing.Initiate.{InitiateReply, PendingRequest, initiate, choose_print_format}
use frappe_dsc.Signing.Initiate.Authority.{IsGuarded, initiate-IsGuarded}
use frappe_dsc.Signing.Finalize.{FinalizeCall, FinalizeReply, mismatch_reason, finalize}
use frappe_dsc.Signing.Finalize.Success.{IsCompleted, finalize_signs}
use frappe_dsc.Signing.Finalize.Failure.{mismatch_committed, failure_committed}
use frappe_dsc.Tests.Samples.{platform, signer}
use frappe_dsc.Tests.Records.{request_of, site, session, sign_pending, finish_running}

abbrev initiated : InitiateReply
initiated = record {
  session_id = "S1";
  hash_to_sign = "sha:A";
  hash_algorithm = "sha256";
  expected_cert_fingerprint = some "sha:CERT";
  signing_request = "PEND";
  timestamp = 1000;
  nonce = "N";
  hmac = "mac:S1|sha:A|sha256|1|N";
  signer_name = some "Signer";
  reason = "Approved";
  location = "";
}

initiate-IsGuarded_example :
    IsGuarded platform signer sign_pending site initiated
      (initiate platform signer sign_pending site).1
unfolding initiate frappe_dsc.Signing.Initiate.pending_request
    frappe_dsc.Signing.Initiate.check_signer frappe_dsc.Base.find_row
    frappe_dsc.Signing.Initiate.check_location frappe_dsc.Signing.Initiate.normalise
    frappe_dsc.Signing.Initiate.load_template frappe_dsc.Signing.Initiate.uploaded_pdf
    frappe_dsc.Signing.Initiate.read_position run_dev_hooks
    frappe_dsc.Signing.Initiate.check_certificate frappe_dsc.Engine.prepare_pdf_for_signing
    frappe_dsc.Signing.Initiate.record_hash frappe_dsc.Secrets.get_or_create_hmac_secret
    frappe_dsc.Signing.Initiate.mac_payload
initiate-IsGuarded_example = initiate-IsGuarded platform signer sign_pending site refl

abbrev verified : Verification
verified = record {
  is_valid = true;
  error = none;
  signatures = record { field_name = "Sig1"; bottom_line = true; validation_error = none } ∷ [];
  signature_count = some 1;
  trust_store_configured = false;
}

abbrev finalized : FinalizeReply
finalized = record {
  status = Status.signed;
  file_url = "/RUN_signed_v1.pdf";
  file_name = "RUN_signed_v1.pdf";
  signing_request = "RUN";
  verification = verified;
}

finalize_signs_example :
    IsCompleted platform signer finish_running site finalized
      (finalize platform signer finish_running site).1
unfolding finalize frappe_dsc.Site.cached frappe_dsc.Signing.Finalize.presented_fingerprint
    frappe_dsc.Base.find_row frappe_dsc.Signing.Finalize.is_mismatch
    frappe_dsc.Signing.Finalize.expected_fingerprint frappe_dsc.Base.same_lower
    frappe_dsc.Engine.finalize_signed_pdf frappe_dsc.Signing.Finalize.chain_of verify_signed_pdf
    frappe_dsc.Engine.save_signed_pdf frappe_dsc.Signing.Notices.add_timeline_entry
    frappe_dsc.Base.update_row frappe_dsc.Signing.Notices.send_signed_notification run_dev_hooks
finalize_signs_example = finalize_signs platform signer finish_running site refl

-- The certificate of another token.
abbrev wrong_token : FinalizeCall
wrong_token = record finish_running { cert_der_b64 = "OTHER" }

mismatch_committed_example :
    let (r, t) = serve (finalize platform signer wrong_token) site in
    (r ≡ err Error.fingerprint_mismatch)
    × (request_at "RUN" t
        ≡ some (record (request_of "RUN" Status.failed) {
          failure_reason = mismatch_reason;
          modified = 1000;
        }))
    × (t.durable ≡ t.db)
unfolding frappe_dsc.Site.cached frappe_dsc.Signing.Finalize.presented_fingerprint
    frappe_dsc.Base.find_row frappe_dsc.Signing.Finalize.is_mismatch
    frappe_dsc.Signing.Finalize.expected_fingerprint frappe_dsc.Base.same_lower
mismatch_committed_example =
    mismatch_committed platform signer wrong_token site {session = session}
      {presented = some "sha:OTHER"} {req = request_of "RUN" Status.in_progress} refl refl refl refl

-- Bytes of which no CMS can be built.
abbrev forged : FinalizeCall
forged = record finish_running { signature_bytes_b64 = "forged" }

failure_committed_example :
    let t = (finalize platform signer forged site).1 in
    (q : SigningRequest) × (request_at "RUN" t ≡ some q)
    × (q.status ≡ Status.failed)
    × (q.failure_reason ≡ take_text 500 (text_of (Error.external "cms")))
    × (t.durable ≡ t.db)
unfolding frappe_dsc.Site.cached frappe_dsc.Signing.Finalize.presented_fingerprint
    frappe_dsc.Base.find_row frappe_dsc.Signing.Finalize.is_mismatch
    frappe_dsc.Signing.Finalize.expected_fingerprint frappe_dsc.Base.same_lower finalize
    frappe_dsc.Engine.finalize_signed_pdf frappe_dsc.Signing.Finalize.chain_of
    frappe_dsc.Signing.Notices.notify_admins_of_failure
failure_committed_example =
    failure_committed platform signer forged site {session = session} {presented = some "sha:CERT"}
      {req = request_of "RUN" Status.in_progress} refl refl refl refl refl

verify_sound_example :
    (trust : Option (List String)) × (sigs : List String) × (ok ("Sig1" ∷ []) ≡ ok sigs)
    × (sigs ≢ [])
    × Every (λ sig. platform.validate_signature trust sig ≡ ok true) sigs
unfolding verify_signed_pdf
verify_sound_example = verify_sound platform "SIGNED" site {v = verified} {t = site} refl refl

run_dev_hooks_ok_example :
    run_dev_hooks platform "dsc_on_decline" (decline (request_of "PEND" Status.pending) "late") site
    ≡ (
      ok tt,
      (run_dev_hooks platform "dsc_on_decline"
          (decline (request_of "PEND" Status.pending) "late")
          site).1,
    )
run_dev_hooks_ok_example =
    run_dev_hooks_ok platform "dsc_on_decline" (decline (request_of "PEND" Status.pending) "late")
      site

abbrev pending_row : PendingRequest
pending_row = record {
  name = "PEND";
  profile = some "P1";
  signature_template = none;
  expected_signer_user = some "signer";
}
