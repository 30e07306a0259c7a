-- ===== src/Tests/System.antt =====
-- Requests that the sample site serves one after the other.
use frappe_dsc.Base.{
  true, not, ◌≡◌, refl, some, ◌||◌, ◌&&◌, ◌==◌, [], ◌∷◌, Every, contains, any_row,
}
use frappe_dsc.Site.{Status, Site, serve}
use frappe_dsc.Signing.Finalize.{FinalizeCall}
use frappe_dsc.System.Hooks.{get_tracked_doctypes, default_tracked_doctypes, tracked_exactly}
use frappe_dsc.System.Serving.{Call, run, Reach, here, next, serves}
use frappe_dsc.System.Keeping.{Baseline, IsEvidenced, unsigned-IsEvidenced}
use frappe_dsc.System.Keeping.Lifecycle.{HooksKeep}
use frappe_dsc.System.Auditing.{with_evidence, signed_have_evidence}
use frappe_dsc.Tests.Samples.{platform, signer}
use frappe_dsc.Tests.Records.{request_of, site, db, sign_pending, finish_running, whole}

-- The sample site with one pending request.
abbrev before : Site
before = record site {
  db = record db { requests = request_of "PEND" Status.pending ∷ [] };
  durable = record db { requests = request_of "PEND" Status.pending ∷ [] };
}

abbrev finish_pending : FinalizeCall
finish_pending = record finish_running { session_id = "S1" }

abbrev started : Site
started =
    (serve (run whole platform default_tracked_doctypes signer (Call.initiates sign_pending))
      before).1

-- The request was initiated and finalized.
abbrev finished : Site
finished =
    (serve (run whole platform default_tracked_doctypes signer (Call.finalizes finish_pending))
      started).1

-- A request that is entered by its form.
abbrev entered : Site
entered =
    (serve
      (run whole platform default_tracked_doctypes signer
        (Call.saves_request true (request_of "NEW" Status.pending)))
      finished).1

served_thrice : Reach whole platform before entered
served_thrice =
    next
      (next (next here (serves default_tracked_doctypes signer (Call.initiates sign_pending) refl))
        (serves default_tracked_doctypes signer (Call.finalizes finish_pending) refl))
      (serves default_tracked_doctypes signer
        (Call.saves_request true (request_of "NEW" Status.pending)) refl)

pending_only : Every IsEvidenced before.db.requests
pending_only = (unsigned-IsEvidenced (request_of "PEND" Status.pending) refl, tt)

sample_hooks : (base : Baseline) → HooksKeep platform base
sample_hooks base hook call = (λ s h. h, tt)

signed_have_evidence_example : Every IsEvidenced entered.durable.requests
unfolding served_thrice
signed_have_evidence_example =
    signed_have_evidence whole platform before entered served_thrice refl
      (((tt, tt), tt), unsigned-IsEvidenced (request_of "NEW" Status.pending) refl) pending_only
      (sample_hooks (with_evidence before.db.audit_events))

tracked_exactly_example : contains (get_tracked_doctypes (some db)) "Invoice" ≡ (
    contains
      ("Sales Invoice" ∷ "Purchase Invoice" ∷ "Sales Order" ∷ "Purchase Order" ∷ "Quotation"
        ∷ "Delivery Note" ∷ "Stock Entry" ∷ "Material Request" ∷ "Journal Entry" ∷ "Payment Entry"
        ∷ [])
      "Invoice"
    || any_row
        (λ r. (r.is_enabled && not (r.target_doctype == "")) && r.target_doctype == "Invoice")
        db.rules)
tracked_exactly_example = tracked_exactly db "Invoice"
