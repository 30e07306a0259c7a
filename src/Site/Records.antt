-- ===== src/Site/Records.antt =====
-- The rows of the DocTypes that the handlers work on (e_sign/digital_signature/doctype).
-- A table is the list of its rows in the order in which the database lists them. Datetimes are
-- seconds, a missing number is 0, a missing text is `none`. Byte strings are texts with one
-- character for each byte.
use frappe_dsc.Base.{ℕ, String, Bool, true, false, Option, none, some, List}

-- The options of `status` in dsc_signing_request.json.
pub data Status : Type 0 where
  pending in_progress signed failed cancelled : Status

-- The options of `status` in dsc_document_sign.json.
pub data DocumentStatus : Type 0 where
  draft pending in_progress signed failed cancelled : DocumentStatus

abbrev pub same_status : Status → Status → Bool
same_status Status.pending Status.pending = true
same_status Status.in_progress Status.in_progress = true
same_status Status.signed Status.signed = true
same_status Status.failed Status.failed = true
same_status Status.cancelled Status.cancelled = true
same_status _ _ = false

pub record SigningRequest : Type 0 where
  pub name : String
  pub source_doctype : String
  pub source_name : String
  pub rule : Option String
  pub profile : Option String
  pub signature_template : Option String
  pub expected_signer_user : Option String
  pub actual_signer_user : Option String
  pub status : Status
  pub failure_reason : String
  pub hash_algorithm : Option String
  pub hash_to_be_signed : Option String
  pub signature_bytes : Option String
  pub certificate_fingerprint_presented : Option String
  pub ocsp_response_b64 : Option String
  pub signed_file : Option String
  pub creation : ℕ
  pub created_on : ℕ
  pub modified : ℕ
  pub signed_on : Option ℕ
  pub cancelled_on : Option ℕ
  pub sign_duration_seconds : Option ℕ
  pub client_ip : Option String
  pub client_user_agent : Option String
  pub signer_lat : Option String
  pub signer_lng : Option String
  pub signer_accuracy_m : Option String
  pub signer_address : Option String
  pub signer_location_provider : Option String

pub record DocumentSign : Type 0 where
  pub name : String
  pub uploaded_pdf : Option String
  pub profile : Option String
  pub signature_template : Option String
  pub sig_page : ℕ
  pub sig_x : ℕ
  pub sig_y : ℕ
  pub sig_width : ℕ
  pub sig_height : ℕ
  pub status : DocumentStatus
  pub signing_request : Option String
  pub signed_file : Option String

-- A row of the table `previous_certificates`.
pub record PreviousCertificate : Type 0 where
  pub certificate_fingerprint : Option String
  pub certificate_common_name : Option String
  pub certificate_not_after : Option ℕ
  pub replaced_on : ℕ

-- `allowed_users` lists the users of the rows of DSC Profile User.
pub record Profile : Type 0 where
  pub name : String
  pub profile_name : String
  pub label : Option String
  pub is_active : Bool
  pub allowed_users : List String
  pub certificate_fingerprint : Option String
  pub certificate_common_name : Option String
  pub certificate_issuer : Option String
  pub certificate_serial : Option String
  pub certificate_not_before : Option ℕ
  pub certificate_not_after : Option ℕ
  pub certificate_pem_public : Option String
  pub registered_on : Option ℕ
  pub previous_certificates : List PreviousCertificate
  pub designation_for_stamp : Option String

-- The options of `trigger_event` in dsc_rule.json.
pub data TriggerEvent : Type 0 where
  on_submit on_update on_change on_workflow_action : TriggerEvent

-- The options of `operator` in dsc_rule_condition.json, and any other text.
pub data Operator : Type 0 where
  equals not_equals greater_than less_than is_in not_in has_text is_set is_not_set : Operator
  unknown : String → Operator

pub record RuleCondition : Type 0 where
  pub field_name : String
  pub operator : Operator
  pub value : Option String

pub record Rule : Type 0 where
  pub name : String
  pub priority : ℕ
  pub is_enabled : Bool
  pub target_doctype : String
  pub trigger_event : TriggerEvent
  pub trigger_workflow_state : Option String
  pub conditions : List RuleCondition
  pub profile : Option String
  pub print_format : Option String
  pub signature_template : Option String
  pub is_mandatory : Bool
  pub block_print_until_signed : Bool
  pub block_email_until_signed : Bool
  pub company : Option String

-- A row of the table `fields` of a signature template.
pub record SignatureField : Type 0 where
  pub field_name : String
  pub page_number : ℕ
  pub x : ℕ
  pub y : ℕ
  pub width : ℕ
  pub height : ℕ
  pub assigned_profile : Option String

pub record SignatureTemplate : Type 0 where
  pub name : String
  pub template_name : String
  pub version : ℕ
  pub is_active : Bool
  pub target_doctype : Option String
  pub print_format : Option String
  pub stamp_show_dn_cn : Bool
  pub stamp_include_signature_image : Bool
  pub stamp_include_seal_image : Bool
  pub stamp_font_family : Option String
  pub stamp_font_size : ℕ
  pub stamp_border : Bool
  pub fields : List SignatureField
  pub stamp_show_signer_name : Bool
  pub stamp_show_designation : Bool
  pub stamp_show_digitally_signed_by : Bool
  pub stamp_show_timestamp : Bool
  pub stamp_timestamp_format : Option String
  pub stamp_show_reason : Bool
  pub stamp_show_location : Bool

-- Values of the `details` dictionaries.
mutual
  pub data Json : Type 0 where
    null : Json
    bool : Bool → Json
    num : ℕ → Json
    str : String → Json
    obj : Details → Json

  pub data Details : Type 0 where
    no_details : Details
    detail : String → Json → Details → Details

abbrev pub opt_json : Option String → Json
opt_json none = Json.null
opt_json (some t) = Json.str t
