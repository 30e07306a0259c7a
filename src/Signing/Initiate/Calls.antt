-- ===== src/Signing/Initiate/Calls.antt =====
-- api/signing.py, initiate: the call, the reply and the pending request.
use frappe_dsc.Base.{
  ℕ, String, ◌==◌, Bool, ◌&&◌, ◌||◌, Option, none, some, first_where, if◌then◌else◌,
}
use frappe_dsc.Site.{Status, same_status, SigningRequest, Db}

-- The arguments of initiate.
pub record InitiateCall : Type 0 where
  pub doctype : String
  pub docname : String
  pub cert_der_b64 : Option String
  pub signer_lat : Option String
  pub signer_lng : Option String
  pub signer_accuracy_m : Option String

-- What initiate returns.
pub record InitiateReply : Type 0 where
  pub session_id : String
  pub hash_to_sign : String
  pub hash_algorithm : String
  pub expected_cert_fingerprint : Option String
  pub signing_request : String
  pub timestamp : ℕ
  pub nonce : String
  pub hmac : String
  pub signer_name : Option String
  pub reason : String
  pub location : String

-- The four columns that initiate reads of the pending request.
pub record PendingRequest : Type 0 where
  pub name : String
  pub profile : Option String
  pub signature_template : Option String
  pub expected_signer_user : Option String

-- `signing_request.get(key)`: None for a column that was not read.
unfoldable pub get_column : String → PendingRequest → Option String
get_column key r =
    if key == "name"
    then some r.name
    else if key == "profile"
    then r.profile
    else if key == "signature_template"
    then r.signature_template
    else if key == "expected_signer_user"
    then r.expected_signer_user
    else none

-- Null comes as an empty text.
unfoldable pub normalise : Option String → Option String
normalise none = none
normalise (some t) = if t == "" || t == "null" || t == "None" then none else some t

unfoldable pub is_pending_for : String → String → SigningRequest → Bool
is_pending_for doctype docname r =
    r.source_doctype == doctype && r.source_name == docname && same_status r.status Status.pending

columns : Option SigningRequest → Option PendingRequest
columns none = none
columns (some r) = some (record {
  name = r.name;
  profile = r.profile;
  signature_template = r.signature_template;
  expected_signer_user = r.expected_signer_user;
})

unfoldable pub pending_request : String → String → Db → Option PendingRequest
unfolding is_pending_for first_where columns
pending_request doctype docname d =
    columns (first_where (is_pending_for doctype docname) d.requests)
