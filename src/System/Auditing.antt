-- ===== src/System/Auditing.antt =====
-- What holds after any number of requests.
use mathlib.Core.Path.{subst}
use mathlib.Core.List.{append-nil}
use frappe_dsc.Base.{Bool, true, false, refl, String, ◌≡◌, sym, ap, ◌∙◌, List, [], contains, Every}
use frappe_dsc.Site.{
  SigningRequest, AuditEvent, Site, Result, ok, err, Action, finish, Platform, Context,
}
use frappe_dsc.Rules.Conditions.{Floats, Document}
use frappe_dsc.System.Hooks.{DocEvent, rule_engine_event}
use frappe_dsc.Requests.{save_request, insert_new}
use frappe_dsc.Audit.{insert, before_save}
use frappe_dsc.System.Keeping.Saving.{
  insert_new-Keeps, insert-Keeps, before_save-Keeps, on_trash-Keeps, delete_file-Keeps,
}
use frappe_dsc.System.Serving.{
  IsHonest, HonestStep, HonestSaves, Call, answered, run, Step, serves, elsewhere, Reach, here,
  next,
}
use frappe_dsc.System.Keeping.{
  Baseline, branches, IsEvidenced, IsSound, IsKept, Keeps, after, when-Keeps,
}
use frappe_dsc.System.Keeping.Lifecycle.{
  HooksKeep, save_request-Keeps, retry-Keeps, cancel-Keeps, abort_in_progress-Keeps,
}
use frappe_dsc.System.Keeping.Rules.{
  evaluate_on_submit-Keeps, evaluate_on_update-Keeps, evaluate_on_change-Keeps, on_update-Keeps,
}
use frappe_dsc.System.Keeping.Sweeps.{
  get_signing_status-Keeps, get_form_actions-Keeps, expire_stale_pending_requests-Keeps,
  purge_old_requests-Keeps, notify_upcoming_expiries-Keeps,
}
use frappe_dsc.System.Keeping.Finalize.{finalize-Keeps}
use frappe_dsc.System.Keeping.Initiate.{initiate-Keeps}
use frappe_dsc.System.Keeping.Agents.{
  generate_pairing_code-Keeps, validate_pairing_code-Keeps, verify_site_token-Keeps,
  register_certificate-Keeps, save_profile-Keeps, save_template-Keeps,
}
use frappe_dsc.System.Keeping.Reading.{export_evidence_pack-Keeps, download_pdf-Keeps, make-Keeps}

module _ {P : Platform} {base : Baseline} where
  answered-Keeps : {A : Type 0} (m : Action A) → Keeps P base m → Keeps P base (answered m)
  answered-Keeps m km s h = after (m s) _ (km s h) λ a s1 h1. h1

  unchanged :
      {log log' : List AuditEvent} {rows rows' : List SigningRequest}
      → log' ≡ log
      → rows' ≡ rows
      → IsSound P base log rows
      → IsSound P base log' rows'
  unchanged events requests h = record {
    new = h.new;
    logged = events ∙ h.logged;
    hashed = h.hashed;
    evidenced = λ e. subst (Every IsEvidenced) (sym requests) (h.evidenced e);
  }

  finished : {A : Type 0} (p : Result A × Site) → IsKept P base p.1 → IsKept P base (finish p.0 p.1)
  finished (ok a, s) h = record { running = h.running; committed = h.running }
  finished (err e, s) h = record { running = h.committed; committed = h.committed }

module _ (N : Floats) (P : Platform) (base : Baseline) (hooks : HooksKeep P base) where
  rule_engine_event-Keeps :
      (ctx : Context) (event : DocEvent) (doc : Document N)
      → Keeps P base (rule_engine_event N P ctx event doc)
  unfolding rule_engine_event
  rule_engine_event-Keeps ctx DocEvent.on_submit doc = evaluate_on_submit-Keeps P base N ctx doc
  rule_engine_event-Keeps ctx DocEvent.on_update_after_submit doc =
      evaluate_on_update-Keeps P base N ctx doc
  rule_engine_event-Keeps ctx DocEvent.on_change doc = evaluate_on_change-Keeps P base N ctx doc

  run-Keeps :
      (tracked : List String) (ctx : Context) (call : Call N)
      → (base.with_evidence ≡ true → IsHonest call)
      → Keeps P base (run N P tracked ctx call)
  unfolding run
  run-Keeps tracked ctx (Call.initiates call) honest =
      answered-Keeps _ (initiate-Keeps P base ctx hooks call)
  run-Keeps tracked ctx (Call.finalizes call) honest =
      answered-Keeps _ (finalize-Keeps P base hooks ctx call)
  run-Keeps tracked ctx (Call.retries name) honest = answered-Keeps _ (retry-Keeps P base ctx name)
  run-Keeps tracked ctx (Call.cancels name reason) honest =
      answered-Keeps _ (cancel-Keeps P base hooks ctx name reason)
  run-Keeps tracked ctx (Call.aborts name reason) honest =
      answered-Keeps _ (abort_in_progress-Keeps P base ctx name reason)
  run-Keeps tracked ctx (Call.asks_status doctype name) honest =
      answered-Keeps _ (get_signing_status-Keeps P base ctx doctype name)
  run-Keeps tracked ctx (Call.asks_form_actions doctype name) honest =
      answered-Keeps _ (get_form_actions-Keeps P base ctx doctype name)
  run-Keeps tracked ctx Call.makes_pairing_code honest =
      answered-Keeps _ (generate_pairing_code-Keeps P base ctx)
  run-Keeps tracked ctx (Call.pairs call) honest =
      answered-Keeps _ (validate_pairing_code-Keeps P base ctx call)
  run-Keeps tracked ctx (Call.shows_token token fingerprint) honest =
      answered-Keeps _ (verify_site_token-Keeps P base ctx token fingerprint)
  run-Keeps tracked ctx (Call.registers profile cert) honest =
      answered-Keeps _ (register_certificate-Keeps P base ctx profile cert)
  run-Keeps tracked ctx (Call.exports name) honest =
      answered-Keeps _ (export_evidence_pack-Keeps P base ctx name)
  run-Keeps tracked ctx (Call.prints doctype name) honest =
      answered-Keeps _ (download_pdf-Keeps P base ctx doctype name)
  run-Keeps tracked ctx (Call.emails mail) honest = answered-Keeps _ (make-Keeps P base ctx mail)
  run-Keeps tracked ctx (Call.document_event event doc) honest =
      when-Keeps (contains tracked doc.doctype) _ (rule_engine_event-Keeps ctx event doc)
  run-Keeps tracked ctx (Call.document_saved doc) honest = on_update-Keeps P base ctx doc
  run-Keeps tracked ctx (Call.saves_request is_new doc) honest =
      branches is_new (insert_new P ctx doc) (save_request ctx doc)
        (insert_new-Keeps P base ctx doc honest) (save_request-Keeps P base ctx doc honest)
  run-Keeps tracked ctx (Call.saves_profile p) honest = save_profile-Keeps P base ctx p
  run-Keeps tracked ctx (Call.saves_event is_new e) honest =
      branches is_new (insert P ctx e) (before_save P ctx false) (insert-Keeps P base ctx e)
        (before_save-Keeps P base ctx false)
  run-Keeps tracked ctx (Call.deletes_event name) honest = on_trash-Keeps P base ctx
  run-Keeps tracked ctx (Call.deletes_file name) honest = delete_file-Keeps P base ctx name
  run-Keeps tracked ctx (Call.template_saved is_new t) honest =
      save_template-Keeps P base ctx is_new t
  run-Keeps tracked ctx Call.expires_stale honest = expire_stale_pending_requests-Keeps P base ctx
  run-Keeps tracked ctx Call.purges_old honest = purge_old_requests-Keeps P base ctx
  run-Keeps tracked ctx Call.warns_of_expiry honest = notify_upcoming_expiries-Keeps P base ctx

  Step-IsKept :
      {s t : Site} (st : Step N P s t)
      → (base.with_evidence ≡ true → HonestStep st)
      → IsKept P base s
      → IsKept P base t
  Step-IsKept {s} (serves tracked ctx call ends) honest h =
      subst (IsKept P base) (sym ends)
        (finished (run N P tracked ctx call s) (run-Keeps tracked ctx call honest s h))
  Step-IsKept (elsewhere events requests committed) honest h = record {
    running = unchanged events requests h.running;
    committed =
        unchanged (ap (λ d. d.audit_events) committed ∙ events)
          (ap (λ d. d.requests) committed ∙ requests) h.running;
  }

  Reach-IsKept :
      {s t : Site} (r : Reach N P s t)
      → (base.with_evidence ≡ true → HonestSaves r)
      → IsKept P base s
      → IsKept P base t
  Reach-IsKept here honest h = h
  Reach-IsKept (next r st) honest h =
      Step-IsKept st (λ e. (honest e).1) (Reach-IsKept r (λ e. (honest e).0) h)

-- The log alone, and the log together with the evidence.
abbrev pub log_only : List AuditEvent → Baseline
log_only events = record { log = events; with_evidence = false }

abbrev pub with_evidence : List AuditEvent → Baseline
with_evidence events = record { log = events; with_evidence = true }

module _ (N : Floats) (P : Platform) (s t : Site) (reached : Reach N P s t)
    (settled : s.durable ≡ s.db) where
  kept :
      (b : Bool)
      → (b ≡ true → HonestSaves reached)
      → (b ≡ true → Every IsEvidenced s.db.requests)
      → HooksKeep P (record { log = s.db.audit_events; with_evidence = b })
      → IsKept P (record { log = s.db.audit_events; with_evidence = b }) t
  kept b honest evidenced hooks =
      Reach-IsKept N P (record { log = s.db.audit_events; with_evidence = b }) hooks reached honest
        (record {
          running = start;
          committed =
              unchanged (ap (λ d. d.audit_events) settled) (ap (λ d. d.requests) settled) start;
        })
    where
      start :
          IsSound P
            (record { log = s.db.audit_events; with_evidence = b })
            s.db.audit_events
            s.db.requests
      start = record {
        new = [];
        logged = sym (append-nil s.db.audit_events);
        hashed = tt;
        evidenced = evidenced;
      }

  -- A request that is committed as Signed has its file, its signer, its time and the fingerprint of
  -- the certificate, whatever the app served since a state in which that was so, as long as developer
  -- hooks keep that and the audit log, and no form saved a request as Signed without its evidence,
  -- which the controller would let through.
  pub signed_have_evidence :
      HonestSaves reached
      → Every IsEvidenced s.db.requests
      → HooksKeep P (with_evidence s.db.audit_events)
      → Every IsEvidenced t.durable.requests
  signed_have_evidence honest evidenced hooks =
      (kept true (λ _. honest) (λ _. evidenced) hooks).committed.evidenced refl
