-- ===== src/Site/Errors.antt =====
-- The exceptions that the handlers raise, and their messages.
use frappe_dsc.Base.{String, ◌<>◌, take_text}
use frappe_dsc.Site.Records.{Status}

pub data Error : Type 0 where
  no_pdf_uploaded invalid_pdf certificate_required not_authorized location_required : Error
  no_signature_position session_expired fingerprint_mismatch verification_failed : Error
  invalid_pairing_code only_failed_retried only_pending_cancelled duplicate_user audit_deleted
        audit_modified :
      Error
  file_protected evidence_not_signed : Error
  no_pending_request : String → String → Error
  profile_not_active not_an_allowed_user certificate_expired : String → Error
  certificate_mismatch : String → String → String → Error
  bad_transition : Status → Status → Error
  permission_denied does_not_exist mandatory_missing : String → String → Error
  print_needs_signature email_needs_signature : String → Error
  external : String → Error

abbrev pub status_text : Status → String
status_text Status.pending = "Pending"
status_text Status.in_progress = "In Progress"
status_text Status.signed = "Signed"
status_text Status.failed = "Failed"
status_text Status.cancelled = "Cancelled"

allowed_text : Status → String
allowed_text Status.pending = "In Progress, Cancelled"
allowed_text Status.in_progress = "Signed, Failed"
allowed_text Status.failed = "Pending"
allowed_text Status.signed = "None (terminal state)"
allowed_text Status.cancelled = "None (terminal state)"

-- `str(e)`, which a handler stores and mails.
unfoldable pub text_of : Error → String
unfolding allowed_text
text_of Error.no_pdf_uploaded = "No PDF has been uploaded on this document."
text_of Error.invalid_pdf = "The uploaded file is not a valid PDF."
text_of Error.certificate_required =
    "Signer certificate is required (cert_der_b64 was empty). The browser must fetch it from the bridge before calling initiate."
text_of Error.not_authorized = "You are not authorized to sign this document."
text_of Error.location_required =
    "Location access is required to digitally sign documents. Please allow your browser to share its location and try again."
text_of Error.no_signature_position =
    "No signature position has been set. Open the document, drag the signature box onto the page, and save before signing."
text_of Error.session_expired = "Signing session expired or not found. Please try again."
text_of Error.fingerprint_mismatch =
    "The certificate on the token does not match this profile. Pair the correct token or contact a DSC Administrator."
text_of Error.verification_failed = "Signed PDF verification failed. The signature may be invalid."
text_of Error.invalid_pairing_code = "Invalid or expired pairing code."
text_of Error.only_failed_retried = "Only failed requests can be retried."
text_of Error.only_pending_cancelled = "Only pending or failed requests can be cancelled."
text_of Error.duplicate_user = "Each user can only be added once to the allowed users list."
text_of Error.audit_deleted =
    "DSC Audit Events cannot be deleted. They are append-only for legal compliance."
text_of Error.audit_modified =
    "DSC Audit Events cannot be modified after creation. They are append-only."
text_of Error.file_protected =
    "This file is a DSC-signed PDF and cannot be deleted. Contact a DSC Administrator if removal is required."
text_of Error.evidence_not_signed = "Evidence pack can only be exported for signed requests."
text_of (Error.no_pending_request doctype docname) =
    "No pending signing request found for " <> doctype <> " " <> docname
text_of (Error.profile_not_active profile) = "DSC Profile '" <> profile <> "' is not active."
text_of (Error.not_an_allowed_user profile) =
    "You are not authorised to sign with DSC Profile '" <> profile
    <> "'. The profile owner has restricted signing to a specific list of users."
text_of (Error.certificate_expired profile) =
    "Certificate for profile '" <> profile <> "' expired. Please renew."
text_of (Error.certificate_mismatch profile expected got) =
    "Certificate on token does not match the one registered on DSC Profile "
    <> profile
    <> ". Expected fingerprint "
    <> take_text 16 expected
    <> "…, got "
    <> take_text 16 got
    <> "…."
text_of (Error.bad_transition old new) =
    "Cannot change status from "
    <> status_text old
    <> " to "
    <> status_text new
    <> ". Allowed transitions: "
    <> allowed_text old
text_of (Error.permission_denied doctype name) =
    "You do not have permission to access " <> doctype <> " " <> name <> "."
text_of (Error.does_not_exist doctype name) = doctype <> " " <> name <> " not found"
text_of (Error.mandatory_missing doctype name) = "[" <> doctype <> ", " <> name <> "]: profile"
text_of (Error.print_needs_signature doctype) =
    "This " <> doctype
    <> " requires a digital signature before printing. Please sign the document first using 'Sign with DSC'."
text_of (Error.email_needs_signature doctype) =
    "This " <> doctype
    <> " requires a digital signature before it can be emailed. Please sign the document first using 'Sign with DSC'."
text_of (Error.external t) = t

-- `type(e).__name__`
unfoldable pub type_of : Error → String
type_of (Error.permission_denied doctype name) = "PermissionError"
type_of (Error.does_not_exist doctype name) = "DoesNotExistError"
type_of (Error.mandatory_missing doctype name) = "MandatoryError"
type_of (Error.external t) = "Exception"
type_of e = "ValidationError"
