-- ===== src/Tests/Samples.antt =====
-- A platform of concrete functions, and the web requests of two users.
use frappe_dsc.Base.{
  some, ℕ, ◌-◌, String, ◌<>◌, ◌==◌, true, false, none, List, [], ◌∷◌, if◌then◌else◌, eqb,
}
use frappe_dsc.Site.{Error, ok, err, Action, Done, raise, Platform, Context, HookCall}

-- A handler of another app that raises.
abbrev failing_hook : HookCall → Action Done
failing_hook call = raise (Error.external "hook")

abbrev roles_of : String → List String
roles_of user =
    if user == "admin"
    then "DSC Administrator" ∷ []
    else if user == "signer"
    then "DSC Signer" ∷ []
    else []

abbrev pub platform : Platform
platform = record {
  sha256 = λ t. "sha:" <> t;
  hmac_sha256 = λ k t. "mac:" <> t;
  b64decode = λ t. if t == "bad" then err (Error.external "b64") else ok t;
  b64encode = λ t. t;
  dump_json = λ d. "J";
  json_list = λ t. none;
  to_float = λ t. ok t;
  round4 = λ t. t;
  decimal = λ n. if eqb n 180 then "180" else "1";
  years_before = λ years now. now - 100;
  roles = roles_of;
  users_with_role = λ role. "admin" ∷ [];
  has_permission = λ user doctype doc ptype. user == "admin";
  like = λ pattern t. false;
  new_name = λ doctype d. "NEW";
  store_file =
      λ d name bytes. ok (record { name = "F9"; file_name = name; file_url = "/" <> name });
  has_signed_field = true;
  send = λ mail. ok tt;
  render_pdf = λ d doctype name format. ok "%PDF";
  hooks = λ hook. ("app.hook", failing_hook) ∷ [];
  text_lines = λ pdf. [];
  load_certificate = λ der. ok tt;
  read_certificate = λ der. ok (record {
    subject_common_name = some "Signer";
    subject_text = "CN=Signer";
    issuer_common_name = none;
    issuer_text = "CN=CA";
    serial = "1A";
    not_before = none;
    not_after = some 900000;
  });
  digest_pdf = λ q. ok (record {
    prepared_pdf = "P";
    document_digest = "D";
    reserved_region_start = 1;
    reserved_region_end = 2;
  });
  signed_attrs = λ t digest. "A";
  build_cms =
      λ cert chain attrs bytes. if bytes == "forged" then err (Error.external "cms") else ok "CMS";
  fill_with_cms = λ digest cms. ok "SIGNED";
  parse_pem = λ t. ok (t ∷ []);
  builtin_bundle = none;
  embedded_signatures = λ pdf. ok ("Sig1" ∷ []);
  validate_signature = λ trust sig. ok true;
  nominatim = λ lat lng. ok none;
  google = λ key lat lng. ok none;
}

abbrev as_user : String → ℕ → Context
as_user user now = record {
  user = user;
  now = now;
  later = now;
  unix_time = now;
  request_ip = none;
  user_agent = none;
  uuid = "S1";
  nonce = "N";
  new_secret = "K";
  pairing_code = "C1";
  site_token = "T1";
  site_url = "https://site";
}

abbrev pub signer : Context
signer = as_user "signer" 1000

-- The signer, later.
abbrev pub signer_later : Context
signer_later = as_user "signer" 1500

abbrev pub admin : Context
admin = as_user "admin" 1000
