-- ===== src/Tests/Records.antt =====
-- The rows of a small site, and the calls that are made on it.
use frappe_dsc.Base.{ℕ, eqb, ltb, String, true, false, none, some, [], ◌∷◌}
use frappe_dsc.Site.{
  Status, DocumentStatus, Operator, TriggerEvent, SigningRequest, DocumentSign, Profile, Rule, File,
  Db, Session, Site,
}
use frappe_dsc.Rules.Conditions.{Value, Floats, Document}
use frappe_dsc.Signing.Initiate.{InitiateCall}
use frappe_dsc.Signing.Finalize.{FinalizeCall, missing}

abbrev pub profile : Profile
profile = record {
  name = "P1";
  profile_name = "P1";
  label = none;
  is_active = true;
  allowed_users = "signer" ∷ [];
  certificate_fingerprint = some "sha:CERT";
  certificate_common_name = some "Signer";
  certificate_issuer = none;
  certificate_serial = none;
  certificate_not_before = none;
  certificate_not_after = none;
  certificate_pem_public = none;
  registered_on = none;
  previous_certificates = [];
  designation_for_stamp = none;
}

abbrev pub request_of : String → Status → SigningRequest
request_of name status = record {
  name = name;
  source_doctype = "Invoice";
  source_name = name;
  rule = some "RULE1";
  profile = some "P1";
  signature_template = none;
  expected_signer_user = some "signer";
  actual_signer_user = none;
  status = status;
  failure_reason = "";
  hash_algorithm = none;
  hash_to_be_signed = none;
  signature_bytes = none;
  certificate_fingerprint_presented = none;
  ocsp_response_b64 = none;
  signed_file = none;
  creation = 10;
  created_on = 10;
  modified = 20;
  signed_on = none;
  cancelled_on = none;
  sign_duration_seconds = none;
  client_ip = none;
  client_user_agent = none;
  signer_lat = none;
  signer_lng = none;
  signer_accuracy_m = none;
  signer_address = none;
  signer_location_provider = none;
}

abbrev pub signed_one : SigningRequest
signed_one = record (request_of "SIGNED" Status.signed) { signed_file = some "F1" }

abbrev pub rule : Rule
rule = record {
  name = "RULE1";
  priority = 5;
  is_enabled = true;
  target_doctype = "Invoice";
  trigger_event = TriggerEvent.on_submit;
  trigger_workflow_state = none;
  conditions = record { field_name = "total"; operator = Operator.is_set; value = none } ∷ [];
  profile = some "P1";
  print_format = some "Fancy";
  signature_template = none;
  is_mandatory = true;
  block_print_until_signed = true;
  block_email_until_signed = true;
  company = none;
}

abbrev pub late_rule : Rule
late_rule = record rule { name = "RULE2"; priority = 9 }

abbrev pub draft : DocumentSign
draft = record {
  name = "D1";
  uploaded_pdf = some "/d1.pdf";
  profile = some "P1";
  signature_template = none;
  sig_page = 1;
  sig_x = 10;
  sig_y = 10;
  sig_width = 100;
  sig_height = 50;
  status = DocumentStatus.draft;
  signing_request = none;
  signed_file = none;
}

abbrev pub signed_file : File
signed_file = record {
  name = "F1";
  file_name = "SIGNED_signed_v1.pdf";
  file_url = "/f1.pdf";
  attached_to_doctype = "Invoice";
  attached_to_name = "SIGNED";
  content = "SIGNED";
  is_private = true;
  is_dsc_signed = true;
}

abbrev pub db : Db
db = record {
  requests =
      request_of "PEND" Status.pending
      ∷ request_of "RUN" Status.in_progress
      ∷ request_of "FAIL" Status.failed
      ∷ signed_one
      ∷ [];
  documents = draft ∷ [];
  profiles = profile ∷ [];
  rules = late_rule ∷ rule ∷ [];
  templates = [];
  audit_events = [];
  agents = [];
  files = signed_file ∷ [];
  comments = [];
  todos = [];
  mails = [];
  error_log = [];
  default_print_formats = [];
  owners = ("Invoice", "RUN", "owner") ∷ [];
  settings = record {
    default_reason = none;
    default_location = none;
    signing_timeout_seconds = 180;
    retention_years_for_requests = 7;
    agent_listen_port = 0;
    default_hash_algorithm = none;
    enforce_signer_location = false;
    geocoding_provider = none;
    geocoding_api_key = none;
    trust_store_bundle = none;
    hmac_secret = some "K";
    enable_expiry_warnings = false;
    expiry_warning_days = [];
  };
}

abbrev pub session : Session
session = record {
  hash_algorithm = "sha256";
  field_name = "DSC_Signature_RUN";
  signing_request_name = "RUN";
  doctype = "Invoice";
  docname = "RUN";
  print_format = none;
  created_at = 900;
  prepared_pdf = "P";
  signed_attrs = "A";
  cert_der = "CERT";
  document_digest = "D";
  reserved_region_start = 1;
  reserved_region_end = 2;
}

abbrev pub site : Site
site = record {
  db = db;
  durable = db;
  sessions = record { key = "e_sign:session:S0"; value = session; expires = 1400 } ∷ [];
  pairings = [];
  geocodes = [];
  sent = [];
}

abbrev pub sign_pending : InitiateCall
sign_pending = record {
  doctype = "Invoice";
  docname = "PEND";
  cert_der_b64 = some "CERT";
  signer_lat = none;
  signer_lng = none;
  signer_accuracy_m = none;
}

abbrev pub finish_running : FinalizeCall
finish_running = record {
  session_id = "S0";
  signature_bytes_b64 = "BYTES";
  cert_der_b64 = "CERT";
  chain = missing;
  ocsp_der_b64 = none;
}

-- Whole numbers in place of floats; a text is no number, and counts as 0.
abbrev pub whole : Floats
whole = record {
  Float = ℕ;
  zero = 0;
  eq = eqb;
  lt = ltb;
  str = λ n. "1";
  flt = λ v. elim v [ Value.number n ↦ some n | _ ↦ some 0 ];
}

abbrev pub invoice : Document whole
invoice = record {
  doctype = "Invoice";
  name = "NEXT";
  values = ("total", Value.number 3) ∷ [];
  before = none;
}
