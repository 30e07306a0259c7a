-- ===== src/Signing/Finalize.antt =====
-- api/signing.py: finalize.
mod Arguments
pub mod Steps
pub mod Filing
pub mod Completing
pub mod Success
pub mod Raising
pub mod Failure
unfoldable pub use Arguments.*
use mathlib.Core.Option
use frappe_dsc.Base.{
  ℕ, text_length, ◌-◌, String, ◌<>◌, ◌==◌, Bool, true, false, not, ◌&&◌, Option, none, some, List,
  [], ◌∷◌, truthy, get_or, or_text, take_text, same_lower, find_row, if◌then◌else◌,
}
use frappe_dsc.Site.{
  Status, DocumentStatus, SigningRequest, File, no_details, detail, Json, opt_json, Db, Error,
  text_of, type_of, Result, ok, err, Action, Done, pure, raise, lift, gets, commit, when, or_raise,
  try_except, ◌>>=◌, ◌>>◌, Platform, Context, get_request, set_request, write_document, log_event,
  log_error,
}
use frappe_dsc.Engine.{
  get_session_info, SignatureResult, SignedPdf, finalize_signed_pdf, save_signed_pdf, Verification,
  verify_signed_pdf,
}
use frappe_dsc.Signing.Hooks.{run_dev_hooks}
use frappe_dsc.Signing.Lifecycle.{mirror_status}
use frappe_dsc.Signing.Notices.{
  add_timeline_entry, notify_admins_of_failure, send_signed_notification,
}

-- The status of the request in the table, and of a DSC Document Sign that it belongs to.
unfoldable pub failed_row : String → SigningRequest → SigningRequest
failed_row reason r = record r { status = Status.failed; failure_reason = reason }

abbrev pub mismatch_reason : String
mismatch_reason = "Certificate fingerprint mismatch — token cert does not match profile"

count_json : Option ℕ → Json
count_json none = Json.null
count_json (some n) = Json.num n

verification_json : Verification → Json
verification_json v =
    Json.obj
      (detail "is_valid" (Json.bool v.is_valid) (detail "error" (opt_json v.error) no_details))

module _ (P : Platform) (ctx : Context) where
  -- The mismatch is committed as Failed before the raise.
  unfoldable pub reject_certificate : String → Option String → Option String → Action Done
  unfolding failed_row
  reject_certificate name expected presented = do
    set_request ctx name (failed_row mismatch_reason)
    log_event P ctx name "Request Failed" (
        some (
          detail "reason" (Json.str "Fingerprint mismatch") (
            detail "expected" (opt_json expected)
              (detail "presented" (opt_json presented) no_details))))
    commit
    raise Error.fingerprint_mismatch

  unfoldable pub require_signature : String → Verification → Action Done
  unfolding is_unsigned failed_row verification_json
  require_signature name v = when (is_unsigned v) (do
    set_request ctx name
        (failed_row ("Signed PDF verification failed: " <> get_or v.error "Unknown"))
    log_event P ctx name "Request Failed" (
        some (
          detail "reason" (Json.str "PDF verification failed")
            (detail "details" (verification_json v) no_details)))
    raise Error.verification_failed)

  -- The evidence that is stored with a signed request.
  unfoldable pub signed_row : FinalizeCall → SignedPdf → File → SigningRequest → SigningRequest
  signed_row call signed file r = record r {
    status = Status.signed;
    actual_signer_user = some ctx.user;
    signed_on = some ctx.later;
    sign_duration_seconds = some (ctx.later - ctx.now);
    signature_bytes = some call.signature_bytes_b64;
    certificate_fingerprint_presented = some signed.certificate_fingerprint;
    ocsp_response_b64 = call.ocsp_der_b64;
    signed_file = some file.name;
  }

  unfoldable pub mirror_signed : SignedPdf → File → Action Done
  mirror_signed signed file = when (signed.doctype == "DSC Document Sign") (
      write_document signed.docname
        λ d. record d { status = DocumentStatus.signed; signed_file = some file.name })

  -- The body of the `try`.
  unfoldable pub complete : FinalizeCall → String → Action FinalizeReply
  unfolding require_signature signed_row mirror_signed count_json
  complete call name = do
    signed ←
        finalize_signed_pdf P ctx call.session_id call.signature_bytes_b64 (chain_of P call.chain)
    verification ← verify_signed_pdf P signed.signed_pdf_bytes
    log_event P ctx name "PDF Verified" (
        some (
          detail "is_valid" (Json.bool verification.is_valid)
            (detail "signature_count" (count_json verification.signature_count) no_details)))
    require_signature name verification
    file ← save_signed_pdf P ctx signed
    set_request ctx name (signed_row call signed file)
    mirror_signed signed file
    log_event P ctx name "Request Signed" (
        some (
          detail "duration_seconds" (Json.num (ctx.later - ctx.now)) (
            detail "file_name" (Json.str file.file_name)
              (detail "file_size" (Json.num (text_length signed.signed_pdf_bytes)) no_details))))
    add_timeline_entry P ctx signed.doctype signed.docname name
    try_except (send_signed_notification P ctx signed.doctype signed.docname name)
        (λ e. log_error "DSC: signed notification email failed")
    commit
    run_dev_hooks P "dsc_after_sign" (record {
      signing_request = name;
      doctype = signed.doctype;
      docname = signed.docname;
      profile = none;
      file_url = some file.file_url;
      reason = none;
    })
    pure (record {
      status = Status.signed;
      file_url = file.file_url;
      file_name = file.file_name;
      signing_request = name;
      verification = verification;
    })

  -- The handler: the failure is stored, mirrored, logged, mailed and committed, and raised again.
  unfoldable pub record_failure : SigningRequest → String → Error → Action FinalizeReply
  unfolding failed_row mirror_status
  record_failure req name e = do
    set_request ctx name (failed_row (take_text 500 (text_of e)))
    mirror_status req DocumentStatus.failed
    log_event P ctx name "Request Failed" (
        some (
          detail "reason" (Json.str (text_of e))
            (detail "error_type" (Json.str (type_of e)) no_details)))
    try_except (notify_admins_of_failure P ctx name)
        (λ e'. log_error "DSC: admin failure-notification email failed")
    commit
    raise e

  -- The two events that are logged before the certificate is trusted.
  unfoldable pub log_presented : FinalizeCall → String → Option String → Action Done
  unfolding has_chain
  log_presented call name presented = do
    log_event P ctx name "Signature Returned" (
        some (
          detail "cert_fingerprint" (opt_json presented) (
            detail "has_chain" (Json.bool (has_chain call.chain))
              (detail "has_ocsp" (Json.bool (truthy call.ocsp_der_b64)) no_details))))
    log_event P ctx name "Cert Presented"
        (some (detail "fingerprint" (opt_json presented) no_details))

  unfoldable pub finalize : FinalizeCall → Action FinalizeReply
  unfolding log_presented reject_certificate complete record_failure
  finalize call = do
    found ← get_session_info ctx call.session_id
    session ← or_raise found Error.session_expired
    presented ← lift (presented_fingerprint P call.cert_der_b64)
    log_presented call session.signing_request_name presented
    req ← get_request session.signing_request_name
    expected ← gets (expected_fingerprint req)
    when (is_mismatch expected presented)
        (reject_certificate session.signing_request_name expected presented)
    try_except (complete call session.signing_request_name)
        (record_failure req session.signing_request_name)
