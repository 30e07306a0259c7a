-- ===== src/Rules/Requesting.antt =====
-- rule_engine.py: _resolve_signer_user, create_signing_request and its notices.
pub mod Once
use frappe_dsc.Base.{
  String, ◌<>◌, ◌==◌, Bool, not, ◌&&◌, Option, none, some, List, [], ◌∷◌, ◌++◌, is_text, truthy,
  get_or, contains, first_where, find_row, if◌then◌else◌,
}
use frappe_dsc.Site.{
  Status, SigningRequest, Rule, Json, opt_json, no_details, detail, Db, Action, Done, pure, gets,
  Error, raise_if, modify, when, try_except, ◌>>=◌, ◌>>◌, Platform, Context, send_now, log_error,
  log_event,
}

first_user : List String → Option String
first_user [] = none
first_user (u ∷ rest) = some u

-- The current user if listed, or the first of the list.
unfoldable pub resolve_among : String → List String → Option String
unfolding first_user
resolve_among user users = if contains users user then some user else first_user users

unfoldable pub allowed_users : Option String → Db → List String
allowed_users profile d = elim (find_row (λ p. p.name) (get_or profile "") d.profiles) [
  | none ↦ []
  | some p ↦ p.allowed_users
]

unfoldable pub is_request_for : String → String → String → SigningRequest → Bool
is_request_for doctype name rule r =
    r.source_doctype == doctype && r.source_name == name && is_text r.rule rule

module _ (ctx : Context) where
  unfoldable pub resolve_signer_user : Option String → Db → Option String
  unfolding resolve_among allowed_users
  resolve_signer_user profile d = resolve_among ctx.user (allowed_users profile d)

  -- The new row of create_signing_request.
  unfoldable pub new_request : String → String → String → Rule → Option String → SigningRequest
  new_request request doctype name rule signer = record {
    name = request;
    source_doctype = doctype;
    source_name = name;
    rule = some rule.name;
    profile = rule.profile;
    signature_template = rule.signature_template;
    expected_signer_user = signer;
    actual_signer_user = none;
    status = Status.pending;
    failure_reason = "";
    hash_algorithm = none;
    hash_to_be_signed = none;
    signature_bytes = none;
    certificate_fingerprint_presented = none;
    ocsp_response_b64 = none;
    signed_file = none;
    creation = ctx.now;
    created_on = ctx.now;
    modified = ctx.now;
    signed_on = none;
    cancelled_on = none;
    sign_duration_seconds = none;
    client_ip = none;
    client_user_agent = none;
    signer_lat = none;
    signer_lng = none;
    signer_accuracy_m = none;
    signer_address = none;
    signer_location_provider = none;
  }

module _ (P : Platform) (ctx : Context) where
  -- _notify_signer
  unfoldable pub notify_signer : String → String → String → String → Action Done
  notify_signer request doctype name signer = send_now P (record {
    recipients = signer ∷ [];
    subject = "Action required: sign " <> doctype <> " " <> name;
    about_request = some request;
  })

  -- _assign_signer_todo
  unfoldable pub assign_signer_todo : String → String → String → String → Action Done
  assign_signer_todo request doctype name signer = modify λ d. record d {
    todos =
        d.todos
        ++ record {
          assign_to = signer;
          reference_name = request;
          description = "Sign " <> doctype <> " " <> name;
        }
          ∷ [];
  }

  unfoldable pub tell_signer : String → String → String → String → Action Done
  unfolding notify_signer assign_signer_todo
  tell_signer request doctype name signer = do
    try_except (notify_signer request doctype name signer)
        (λ e. log_error "DSC: signer notification email failed")
    try_except (assign_signer_todo request doctype name signer)
        (λ e. log_error "DSC: signer ToDo assignment failed")

  -- The rest of create_signing_request, where there is no such request yet.
  unfoldable pub insert_request : String → String → Rule → Action String
  unfolding tell_signer
  insert_request doctype name rule = do
    signer ← gets (resolve_signer_user ctx rule.profile)
    request ← gets (P.new_name "DSC Signing Request")
    raise_if (not (truthy rule.profile)) (Error.mandatory_missing "DSC Signing Request" request)
    modify λ d. record d {
      requests = d.requests ++ new_request ctx request doctype name rule signer ∷ [];
    }
    log_event P ctx request "Request Created" (
        some (
          detail "source_doctype" (Json.str doctype) (
            detail "source_name" (Json.str name) (
              detail "rule" (Json.str rule.name) (
                detail "profile" (opt_json rule.profile)
                  (detail "expected_signer_user" (opt_json signer) no_details))))))
    when (truthy signer && not (is_text signer "Administrator"))
        (tell_signer request doctype name (get_or signer ""))
    pure request

  unfoldable pub existing_or_new : String → String → Rule → Option SigningRequest → Action String
  existing_or_new doctype name rule (some r) = pure r.name
  existing_or_new doctype name rule none = insert_request doctype name rule

  unfoldable pub create_signing_request : String → String → Rule → Action String
  unfolding existing_or_new
  create_signing_request doctype name rule = do
    all ← gets (λ d. d.requests)
    existing_or_new doctype name rule (first_where (is_request_for doctype name rule.name) all)
