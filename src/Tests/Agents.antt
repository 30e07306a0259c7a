-- ===== src/Tests/Agents.antt =====
-- Agents and certificates on the sample site.
use frappe_dsc.Base.{◌≡◌, refl, none, some, List, [], ◌∷◌}
use frappe_dsc.Site.{Site, Error, Result, ok, err}
use frappe_dsc.Agents.{
  PairingCall, PairingReply, generate_pairing_code, validate_pairing_code, verify_site_token,
  register_certificate,
}
use frappe_dsc.Agents.Codes.{code_used_up, token_verifies}
use frappe_dsc.Tests.Samples.{platform, signer, admin, signer_later}
use frappe_dsc.Tests.Records.{site, db}

-- An administrator has asked for a pairing code.
abbrev invited : Site
invited = (generate_pairing_code admin site).1

abbrev first_call : PairingCall
first_call = record {
  pairing_code = "C1";
  agent_fingerprint = "FP";
  os_platform = none;
  agent_version = none;
}

abbrev first_reply : PairingReply
first_reply = record {
  site_token = "T1";
  site_url = "https://site";
  agent_registration = "NEW";
  hmac_secret = "K";
}

abbrev paired : Site
paired = (validate_pairing_code platform signer first_call invited).1

code_used_up_example :
    validate_pairing_code platform signer_later
      (record first_call { agent_fingerprint = "OTHER" })
      paired
    ≡ (err Error.invalid_pairing_code, paired)
unfolding validate_pairing_code frappe_dsc.Site.cached generate_pairing_code
    frappe_dsc.Secrets.get_or_create_hmac_secret
code_used_up_example =
    code_used_up platform signer signer_later first_call invited {reply = first_reply} {t = paired}
      refl (record first_call { agent_fingerprint = "OTHER" }) refl

token_verifies_example :
    ((verify_site_token platform signer_later "T1" none paired).0 ≡ ok (some "NEW"))
    × (paired.durable.agents ≡ paired.db.agents)
unfolding validate_pairing_code frappe_dsc.Site.cached generate_pairing_code
    frappe_dsc.Secrets.get_or_create_hmac_secret frappe_dsc.Base.first_where
token_verifies_example =
    token_verifies platform signer signer_later first_call invited {reply = first_reply}
      {t = paired} refl refl refl

abbrev registered : Site
registered = (register_certificate platform admin "P1" "CERT2" site).1
