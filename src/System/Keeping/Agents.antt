-- ===== src/System/Keeping/Agents.antt =====
-- api/agent.py and the controllers of templates and profiles: what they keep.
use frappe_dsc.Base.{
  String, ◌==◌, not, Bool, true, false, Option, some, none, first_where, find_row,
}
use frappe_dsc.Site.{
  SignatureTemplate, Profile, AgentRegistration, Error, pure, lift, or_raise, raise_if, cached,
  get_profile, Platform, Context,
}
use frappe_dsc.Secrets.{get_or_create_hmac_secret}
use frappe_dsc.Agents.{
  may_write_profile, PairingCall, pairing_key, generate_pairing_code, validate_pairing_code,
  is_agent_for, touch_agent, verify_site_token, with_history, with_certificate, save_profile,
  register_certificate,
}
use frappe_dsc.Documents.{has_repeats, validate_unique_users}
use frappe_dsc.Templates.{
  has_signing_history, versioned_fields_changed, fork_new_version, keep_or_fork, before_save,
  save_template,
}
use frappe_dsc.System.Keeping.{Baseline, Keeps, after, branches, or_raise-Keeps}
use frappe_dsc.System.Keeping.Guards.{get_or_create_hmac_secret-Keeps}

module _ (P : Platform) (base : Baseline) (ctx : Context) where
  pub generate_pairing_code-Keeps : Keeps P base (generate_pairing_code ctx)
  unfolding generate_pairing_code
  generate_pairing_code-Keeps s h = record { running = h.running; committed = h.committed }

  pub validate_pairing_code-Keeps :
      (call : PairingCall) → Keeps P base (validate_pairing_code P ctx call)
  unfolding validate_pairing_code
  validate_pairing_code-Keeps call s h =
      after
        (or_raise (cached ctx (pairing_key call.pairing_code) s.pairings) Error.invalid_pairing_code
          s)
        _ (or_raise-Keeps _ _ s h)
        λ pairing s1 h1.
          after (get_or_create_hmac_secret ctx _) _
            (get_or_create_hmac_secret-Keeps P base ctx _
              (record { running = h1.running; committed = h1.running }))
            λ secret s2 h2. h2

  touch_agent-Keeps : (a : Option AgentRegistration) → Keeps P base (touch_agent P ctx a)
  unfolding touch_agent
  touch_agent-Keeps none s h = h
  touch_agent-Keeps (some a) s h = record { running = h.running; committed = h.committed }

  pub verify_site_token-Keeps :
      (token : String) (fingerprint : Option String)
      → Keeps P base (verify_site_token P ctx token fingerprint)
  unfolding verify_site_token
  verify_site_token-Keeps token fingerprint =
      branches (token == "") (pure none) _ (λ s h. h)
        (λ s h.
          touch_agent-Keeps (first_where (is_agent_for (P.sha256 token) fingerprint) s.db.agents) s
            h)

  pub save_profile-Keeps : (p : Profile) → Keeps P base (save_profile P ctx p)
  unfolding save_profile validate_unique_users
  save_profile-Keeps p s h =
      after (raise_if (has_repeats p.allowed_users) Error.duplicate_user s) _ h
        λ _ s1 h1. record { running = h1.running; committed = h1.committed }

  pub register_certificate-Keeps :
      (name cert : String) → Keeps P base (register_certificate P ctx name cert)
  unfolding register_certificate
  register_certificate-Keeps name cert s h = after (lift (P.b64decode cert) s) _ h λ der s1 h1.
      after (lift (P.read_certificate der) s1) _ h1 λ info s2 h2.
        after (get_profile (some name) s2) _ (or_raise-Keeps _ _ s2 h2) λ p s3 h3.
          after
            (raise_if (not (may_write_profile P ctx p)) (Error.permission_denied "DSC Profile" name)
              s3)
            _ h3
            λ _ s4 h4.
              let changed = with_certificate P ctx der info (with_history P ctx p) in
              after (save_profile P ctx changed s4) _ (save_profile-Keeps changed s4 h4)
                λ _ s5 h5. h5

  fork_new_version-Keeps : (p t : SignatureTemplate) → Keeps P base (fork_new_version P p t)
  unfolding fork_new_version
  fork_new_version-Keeps p t s h = record { running = h.running; committed = h.committed }

  keep_or_fork-Keeps :
      (t : SignatureTemplate) (previous : Option SignatureTemplate)
      → Keeps P base (keep_or_fork P t previous)
  unfolding keep_or_fork
  keep_or_fork-Keeps t none s h = h
  keep_or_fork-Keeps t (some p) s h =
      branches (versioned_fields_changed t p) _ (pure t)
        (λ s1 h1. record { running = h1.running; committed = h1.committed }) (λ s1 h1. h1) s h

  before_save-Keeps :
      (is_new : Bool) (t : SignatureTemplate) → Keeps P base (before_save P is_new t)
  unfolding before_save
  before_save-Keeps true t s h = h
  before_save-Keeps false t s h =
      branches (has_signing_history t.name s.db)
        (keep_or_fork P t (find_row (λ q. q.name) t.name s.db.templates)) (pure t)
        (keep_or_fork-Keeps t (find_row (λ q. q.name) t.name s.db.templates)) (λ s1 h1. h1) s h

  pub save_template-Keeps :
      (is_new : Bool) (t : SignatureTemplate) → Keeps P base (save_template P is_new t)
  unfolding save_template
  save_template-Keeps is_new t s h =
      after (before_save P is_new t s) _ (before_save-Keeps is_new t s h)
        λ q s1 h1. record { running = h1.running; committed = h1.committed }
