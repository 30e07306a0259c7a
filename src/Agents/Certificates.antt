-- ===== src/Agents/Certificates.antt =====
-- e_sign/api/agent.py: what register_certificate does to a profile.
use frappe_dsc.Base.{if◌then◌else◌, truthy, [], ◌∷◌, ◌++◌, String, ◌≡◌, some}
use frappe_dsc.Site.{Site, Profile, Platform, Context}

module _ (P : Platform) (ctx : Context) where
  -- What a profile keeps of its certificates, and the one that it has now.
  abbrev pub Replaces : Profile → String → Profile → Type 0
  Replaces p fingerprint q =
      (q.certificate_fingerprint ≡ some fingerprint)
      × (q.allowed_users ≡ p.allowed_users)
      × (q.previous_certificates ≡ (
          if truthy p.certificate_fingerprint
          then p.previous_certificates
            ++ record {
              certificate_fingerprint = p.certificate_fingerprint;
              certificate_common_name = p.certificate_common_name;
              certificate_not_after = p.certificate_not_after;
              replaced_on = ctx.now;
            }
              ∷ []
          else p.previous_certificates))
