-- ===== src/System/Serving.antt =====
-- The requests and events that Frappe hands to the app: the entry points of e_sign/api, those of
-- e_sign/hooks.py, and what the forms of its DocTypes save and delete.
use frappe_dsc.Base.{if◌then◌else◌, false, String, Bool, Option, List, ◌≡◌, contains}
use frappe_dsc.Site.{
  SigningRequest, AuditEvent, Profile, DocumentSign, SignatureTemplate, Site, Action, Done, pure,
  when, serve, ◌>>◌, Platform, Context,
}
use frappe_dsc.Rules.Conditions.{Floats, Document}
use frappe_dsc.Signing.Initiate.{InitiateCall, initiate}
use frappe_dsc.Signing.Finalize.{FinalizeCall, finalize}
use frappe_dsc.Signing.Lifecycle.{retry, cancel, abort_in_progress}
use frappe_dsc.Signing.Progress.{get_signing_status, get_form_actions}
use frappe_dsc.Agents.{
  PairingCall, generate_pairing_code, validate_pairing_code, verify_site_token,
  register_certificate, save_profile,
}
use frappe_dsc.Audit
use frappe_dsc.Audit.{insert, on_trash}
use frappe_dsc.Permissions.{delete_file}
use frappe_dsc.Requests.{save_request, insert_new}
use frappe_dsc.Gates.{Email, download_pdf, make}
use frappe_dsc.Evidence.{export_evidence_pack}
use frappe_dsc.Documents.{on_update}
use frappe_dsc.Templates.{save_template}
use frappe_dsc.Jobs.{expire_stale_pending_requests, purge_old_requests, notify_upcoming_expiries}
use frappe_dsc.System.Keeping.{IsEvidenced}
use frappe_dsc.System.Hooks.{DocEvent, rule_engine_event}

-- The whitelisted methods, the overridden ones, the document events, the hooks of the app's own
-- DocTypes, what its forms save and delete, and the scheduled jobs.
pub data Call (N : Floats) : Type 0 where
  initiates : InitiateCall → Call N
  finalizes : FinalizeCall → Call N
  retries : String → Call N
  cancels : String → String → Call N
  aborts : String → String → Call N
  asks_status : String → String → Call N
  asks_form_actions : String → String → Call N
  makes_pairing_code : Call N
  pairs : PairingCall → Call N
  shows_token : String → Option String → Call N
  registers : String → String → Call N
  exports : String → Call N
  prints : String → String → Call N
  emails : Email → Call N
  document_event : DocEvent → Document N → Call N
  document_saved : DocumentSign → Call N
  saves_request : Bool → SigningRequest → Call N
  saves_profile : Profile → Call N
  saves_event : Bool → AuditEvent → Call N
  deletes_event : String → Call N
  deletes_file : String → Call N
  template_saved : Bool → SignatureTemplate → Call N
  expires_stale purges_old warns_of_expiry : Call N

module _ {A : Type 0} where
  -- What the answer holds goes to the caller.
  abbrev pub answered : Action A → Action Done
  answered m = m >> pure tt

module _ (N : Floats) (P : Platform) (tracked : List String) (ctx : Context) where
  -- `tracked` are the DocTypes of `doc_events`, which a worker computes when it starts.
  unfoldable pub run : Call N → Action Done
  run (Call.initiates call) = answered (initiate P ctx call)
  run (Call.finalizes call) = answered (finalize P ctx call)
  run (Call.retries name) = answered (retry P ctx name)
  run (Call.cancels name reason) = answered (cancel P ctx name reason)
  run (Call.aborts name reason) = answered (abort_in_progress P ctx name reason)
  run (Call.asks_status doctype name) = answered (get_signing_status ctx doctype name)
  run (Call.asks_form_actions doctype name) = answered (get_form_actions ctx doctype name)
  run Call.makes_pairing_code = answered (generate_pairing_code ctx)
  run (Call.pairs call) = answered (validate_pairing_code P ctx call)
  run (Call.shows_token token fingerprint) = answered (verify_site_token P ctx token fingerprint)
  run (Call.registers profile cert) = answered (register_certificate P ctx profile cert)
  run (Call.exports name) = answered (export_evidence_pack P ctx name)
  run (Call.prints doctype name) = answered (download_pdf P ctx doctype name)
  run (Call.emails mail) = answered (make mail)
  run (Call.document_event event doc) =
      when (contains tracked doc.doctype) (rule_engine_event N P ctx event doc)
  run (Call.document_saved doc) = on_update P ctx doc
  run (Call.saves_request is_new doc) =
      if is_new then insert_new P ctx doc else save_request ctx doc
  run (Call.saves_profile p) = save_profile P ctx p
  run (Call.saves_event is_new e) = if is_new then insert P ctx e else Audit.before_save P ctx false
  run (Call.deletes_event name) = on_trash P ctx
  run (Call.deletes_file name) = delete_file P ctx name
  run (Call.template_saved is_new t) = save_template P is_new t
  run Call.expires_stale = expire_stale_pending_requests P ctx
  run Call.purges_old = purge_old_requests P ctx
  run Call.warns_of_expiry = notify_upcoming_expiries P ctx

module _ (N : Floats) (P : Platform) where
  -- One request from beginning to end, or a change that somebody else commits to tables that are
  -- neither the audit log nor the signing requests.
  pub data Step (s t : Site) : Type 0 where
    serves :
        (tracked : List String) (ctx : Context) (call : Call N)
        → t ≡ (serve (run N P tracked ctx call) s).1
        → Step s t
    elsewhere :
        t.db.audit_events ≡ s.db.audit_events
        → t.db.requests ≡ s.db.requests
        → t.durable ≡ t.db
        → Step s t

  pub data Reach (s : Site) : Site → Type 0 where
    here : Reach s s
    next : {t u : Site} → Reach s t → Step t u → Reach s u

module _ {N : Floats} where
  -- What is asked of a save of a signing request by its form: that the row has its evidence if its
  -- status is Signed.
  abbrev pub IsHonest : Call N → Type 0
  IsHonest (Call.saves_request is_new doc) = IsEvidenced doc
  IsHonest _ = Unit

  abbrev pub HonestStep : {P : Platform} {s t : Site} → Step N P s t → Type 0
  HonestStep (serves tracked ctx call ends) = IsHonest call
  HonestStep (elsewhere events requests committed) = Unit

  -- The forms saved no signing request as Signed without its evidence on the way.
  abbrev pub HonestSaves : {P : Platform} {s t : Site} → Reach N P s t → Type 0
  HonestSaves here = Unit
  HonestSaves (next r st) = HonestSaves r × HonestStep st
