-- ===== src/Tests/Evidence.antt =====
-- The evidence pack of the signed request on the sample site.
use frappe_dsc.Base.{String, ℕ, List, ◌==◌, ◌≡◌, refl, true, none, some, ◌∷◌, [], rows_where, Every}
use frappe_dsc.Site.{Site, Status, SigningRequest, AuditEvent, request_at}
use frappe_dsc.Evidence.{PackEntry, may_read, export_evidence_pack}
use frappe_dsc.Evidence.Readme.{build_readme}
use frappe_dsc.Base.Queries.{IsIn}
use frappe_dsc.Evidence.Completeness.{pack_complete}
use frappe_dsc.Tests.Samples.{platform, admin}
use frappe_dsc.Tests.Records.{site, db, profile, signed_one}

abbrev event_at : String → ℕ → AuditEvent
event_at name time = record {
  name = name;
  request = "SIGNED";
  event_type = "signed";
  occurred_at = time;
  actor_user = "signer";
  client_ip = none;
  user_agent = none;
  details = none;
  event_hash = "";
}

-- A site whose audit log lists the events in no order.
abbrev logged_site : Site
logged_site = record site {
  db = record db {
    audit_events =
        event_at "E2" 50 ∷ record (event_at "E0" 10) { request = "RUN" } ∷ event_at "E1" 40 ∷ [];
  };
}

abbrev sample_events : List AuditEvent
sample_events = event_at "E1" 40 ∷ event_at "E2" 50 ∷ []

abbrev sample_pack : List PackEntry
sample_pack =
    PackEntry.signed_pdf "SIGNED" "SIGNED"
    ∷ PackEntry.audit_trail signed_one sample_events
    ∷ PackEntry.readme (build_readme platform admin signed_one profile sample_events)
    ∷ []

pack_complete_example :
    (req : SigningRequest) × (events : List AuditEvent) × (request_at "SIGNED" logged_site
      ≡ some req)
    × (req.status ≡ Status.signed)
    × (may_read platform admin req ≡ true)
    × IsIn (PackEntry.audit_trail req events) sample_pack
    × Every
        (λ e. IsIn e events)
        (rows_where (λ e. e.request == "SIGNED") logged_site.db.audit_events)
unfolding export_evidence_pack frappe_dsc.Base.find_row
    frappe_dsc.Permissions.request_has_permission rows_where
pack_complete_example =
    pack_complete platform admin "SIGNED" logged_site {pack = sample_pack} {t = logged_site} refl
