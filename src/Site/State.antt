-- ===== src/Site/State.antt =====
-- The audit log, files and settings (e_sign/digital_signature/doctype), the database, and the cache.
use frappe_dsc.Base.{ℕ, String, Bool, Option, List}
use frappe_dsc.Site.Records.{
  SigningRequest, DocumentSign, Profile, Rule, SignatureTemplate, Details,
}

pub record AuditEvent : Type 0 where
  pub name : String
  pub request : String
  pub event_type : String
  pub occurred_at : ℕ
  pub actor_user : String
  pub client_ip : Option String
  pub user_agent : Option String
  pub details : Option Details
  pub event_hash : String

pub record File : Type 0 where
  pub name : String
  pub file_name : String
  pub file_url : String
  pub attached_to_doctype : String
  pub attached_to_name : String
  pub content : String
  pub is_private : Bool
  pub is_dsc_signed : Bool

pub record Comment : Type 0 where
  pub reference_doctype : String
  pub reference_name : String
  pub content : String

pub record Mail : Type 0 where
  pub recipients : List String
  pub subject : String
  pub about_request : Option String

pub record ToDo : Type 0 where
  pub assign_to : String
  pub reference_name : String
  pub description : String

-- DSC Settings. `hmac_secret` is the decrypted password.
pub record Settings : Type 0 where
  pub default_reason : Option String
  pub default_location : Option String
  pub signing_timeout_seconds : ℕ
  pub retention_years_for_requests : ℕ
  pub agent_listen_port : ℕ
  pub default_hash_algorithm : Option String
  pub enforce_signer_location : Bool
  pub geocoding_provider : Option String
  pub geocoding_api_key : Option String
  pub trust_store_bundle : Option String
  pub hmac_secret : Option String
  pub enable_expiry_warnings : Bool
  pub expiry_warning_days : List ℕ

-- A desktop agent that was paired; `site_token_hash` is all that is kept of its token.
pub record AgentRegistration : Type 0 where
  pub name : String
  pub user : String
  pub agent_fingerprint : String
  pub display_name : String
  pub paired_on : ℕ
  pub last_seen_on : ℕ
  pub is_active : Bool
  pub os_platform : Option String
  pub agent_version : Option String
  pub site_token_hash : String

pub record Db : Type 0 where
  pub requests : List SigningRequest
  pub documents : List DocumentSign
  pub profiles : List Profile
  pub rules : List Rule
  pub templates : List SignatureTemplate
  pub audit_events : List AuditEvent
  pub agents : List AgentRegistration
  pub files : List File
  pub comments : List Comment
  pub todos : List ToDo
  pub mails : List Mail
  pub error_log : List String
  pub default_print_formats : List (String × String)
  pub owners : List (String × String × String)
  pub settings : Settings

-- What prepare_pdf_for_signing leaves in the cache for finalize_signed_pdf.
pub record Session : Type 0 where
  pub hash_algorithm : String
  pub field_name : String
  pub signing_request_name : String
  pub doctype : String
  pub docname : String
  pub print_format : Option String
  pub created_at : ℕ
  pub prepared_pdf : String
  pub signed_attrs : String
  pub cert_der : String
  pub document_digest : String
  pub reserved_region_start : ℕ
  pub reserved_region_end : ℕ

-- What reverse_geocode returns, less the raw answer of the provider.
pub record Geocode : Type 0 where
  pub address : String
  pub provider : String
  pub is_ok : Bool

-- What generate_pairing_code leaves in the cache.
pub record Pairing : Type 0 where
  pub user : String
  pub created_at : ℕ
  pub site_url : String

-- A key of the Redis cache with its value and the time at which it expires.
pub record Cached (A : Type 0) : Type 0 where
  pub key : String
  pub value : A
  pub expires : ℕ

-- `db` is the database as the running transaction sees it, `durable` what was last committed.
-- The cache, and the mail that was sent at once, take no part in transactions.
pub record Site : Type 0 where
  pub db : Db
  pub durable : Db
  pub sessions : List (Cached Session)
  pub pairings : List (Cached Pairing)
  pub geocodes : List (Cached Geocode)
  pub sent : List Mail
