-- ===== src/Agents.antt =====
-- e_sign/api/agent.py: pairing of the desktop agents, and the registration of certificates.
pub mod Codes
pub mod Certificates
use frappe_dsc.Base.{
  ℕ, ◌+◌, String, ◌<>◌, ◌==◌, Bool, true, not, ◌&&◌, ◌||◌, Option, none, some, List, [], ◌∷◌, ◌++◌,
  take_text, or_text, truthy, get_or, first_where, find_row, update_row, if◌then◌else◌,
}
use frappe_dsc.Site.{
  AgentRegistration, Pairing, Profile, Cached, Db, Error, ok, Action, Done, pure, lift, gets,
  modify, commit, raise_if, or_raise, ◌>>=◌, ◌>>◌, Platform, Context, CertificateInfo, cached,
  get_profile,
}
use frappe_dsc.Permissions.{PermissionType, profile_has_permission}
use frappe_dsc.Secrets.{get_or_create_hmac_secret}
use frappe_dsc.Documents.{validate_unique_users}

abbrev pub pairing_ttl_seconds : ℕ
pairing_ttl_seconds = 600

abbrev pub pairing_key : String → String
pairing_key code = "e_sign:pairing:" <> code

-- What generate_pairing_code returns.
pub record PairingCode : Type 0 where
  pub pairing_code : String
  pub expires_in_seconds : ℕ
  pub site_url : String

-- The arguments of validate_pairing_code.
pub record PairingCall : Type 0 where
  pub pairing_code : String
  pub agent_fingerprint : String
  pub os_platform : Option String
  pub agent_version : Option String

-- What validate_pairing_code returns.
pub record PairingReply : Type 0 where
  pub site_token : String
  pub site_url : String
  pub agent_registration : String
  pub hmac_secret : String

-- `cache().delete_value(key)`
unfoldable pub delete_pairing : String → List (Cached Pairing) → List (Cached Pairing)
delete_pairing key [] = []
delete_pairing key (c ∷ rest) =
    if c.key == key then delete_pairing key rest else c ∷ delete_pairing key rest

-- The filter of verify_site_token.
unfoldable pub is_agent_for : String → Option String → AgentRegistration → Bool
is_agent_for token_hash fingerprint a =
    a.site_token_hash == token_hash
    && a.is_active
    && (not (truthy fingerprint) || a.agent_fingerprint == get_or fingerprint "")

-- _common_name: the common name, or the whole name, cut to 140 characters.
unfoldable pub common_name : Option String → String → String
common_name cn text = take_text 140 (or_text cn text)

module _ (ctx : Context) where
  abbrev paired_cache : List (Cached Pairing) → List (Cached Pairing)
  paired_cache cache =
      record {
        key = pairing_key ctx.pairing_code;
        value = record { user = ctx.user; created_at = ctx.now; site_url = ctx.site_url };
        expires = ctx.now + pairing_ttl_seconds;
      }
      ∷ delete_pairing (pairing_key ctx.pairing_code) cache

  unfoldable pub generate_pairing_code : Action PairingCode
  generate_pairing_code s = (
    ok (record {
      pairing_code = ctx.pairing_code;
      expires_in_seconds = pairing_ttl_seconds;
      site_url = ctx.site_url;
    }),
    record s { pairings = paired_cache s.pairings },
  )

  abbrev pub get_pairing : String → Action (Option Pairing)
  get_pairing key s = (ok (cached ctx key s.pairings), s)

  abbrev pub drop_pairing : String → Action Done
  drop_pairing key s = (ok tt, record s { pairings = delete_pairing key s.pairings })

module _ (P : Platform) (ctx : Context) where
  -- The row that validate_pairing_code inserts: of the token only the hash.
  unfoldable pub registration_of : String → Pairing → PairingCall → AgentRegistration
  registration_of name pairing call = record {
    name = name;
    user = pairing.user;
    agent_fingerprint = call.agent_fingerprint;
    display_name = or_text call.os_platform "Unknown" <> " Agent";
    paired_on = ctx.now;
    last_seen_on = ctx.now;
    is_active = true;
    os_platform = call.os_platform;
    agent_version = call.agent_version;
    site_token_hash = P.sha256 ctx.site_token;
  }

  unfoldable pub validate_pairing_code : PairingCall → Action PairingReply
  validate_pairing_code call = do
    found ← get_pairing ctx (pairing_key call.pairing_code)
    pairing ← or_raise found Error.invalid_pairing_code
    drop_pairing ctx (pairing_key call.pairing_code)
    name ← gets (P.new_name "DSC Agent Registration")
    modify λ d. record d { agents = d.agents ++ registration_of name pairing call ∷ [] }
    commit
    secret ← get_or_create_hmac_secret ctx
    pure (record {
      site_token = ctx.site_token;
      site_url = pairing.site_url;
      agent_registration = name;
      hmac_secret = secret;
    })

  unfoldable pub touch_agent : Option AgentRegistration → Action (Option String)
  touch_agent none = pure none
  touch_agent (some a) = do
    modify λ d. record d {
      agents = update_row (λ b. b.name) a.name (λ b. record b { last_seen_on = ctx.now }) d.agents;
    }
    pure (some a.name)

  unfoldable pub verify_site_token : String → Option String → Action (Option String)
  unfolding touch_agent
  verify_site_token token fingerprint = if token == "" then pure none else (do
    all ← gets (λ d. d.agents)
    touch_agent (first_where (is_agent_for (P.sha256 token) fingerprint) all))

  -- The certificate that a profile had goes to the history.
  unfoldable pub with_history : Profile → Profile
  with_history p =
      if truthy p.certificate_fingerprint
      then record p {
        previous_certificates =
            p.previous_certificates
            ++ record {
              certificate_fingerprint = p.certificate_fingerprint;
              certificate_common_name = p.certificate_common_name;
              certificate_not_after = p.certificate_not_after;
              replaced_on = ctx.now;
            }
              ∷ [];
      }
      else p

  unfoldable pub with_certificate : String → CertificateInfo → Profile → Profile
  unfolding common_name
  with_certificate der info p = record p {
    certificate_fingerprint = some (P.sha256 der);
    certificate_common_name = some (common_name info.subject_common_name info.subject_text);
    certificate_issuer = some (common_name info.issuer_common_name info.issuer_text);
    certificate_serial = some info.serial;
    certificate_not_before = info.not_before;
    certificate_not_after = info.not_after;
    certificate_pem_public =
        some ("-----BEGIN CERTIFICATE-----\n" <> P.b64encode der <> "\n-----END CERTIFICATE-----");
    registered_on = some ctx.now;
  }

  -- `profile.save()`: the controller's validate, and the row.
  unfoldable pub save_profile : Profile → Action Done
  save_profile p = do
    validate_unique_users p
    modify λ d. record d { profiles = update_row (λ q. q.name) p.name (λ q. p) d.profiles }

  -- `profile.check_permission("write")`: the permissions of the user, and the hook of the app.
  unfoldable pub may_write_profile : Profile → Bool
  may_write_profile p =
      P.has_permission ctx.user "DSC Profile" (some p.name) "write"
      && profile_has_permission P p PermissionType.write ctx.user

  -- The fingerprint that register_certificate returns.
  unfoldable pub register_certificate : String → String → Action String
  unfolding with_history with_certificate
  register_certificate profile_name cert_der_b64 = do
    der ← lift (P.b64decode cert_der_b64)
    info ← lift (P.read_certificate der)
    profile ← get_profile (some profile_name)
    raise_if (not (may_write_profile profile)) (Error.permission_denied "DSC Profile" profile_name)
    save_profile (with_certificate der info (with_history profile))
    pure (P.sha256 der)
