-- ===== src/Tests/Handover.antt =====
-- The sample site from initiate to finalize.
use frappe_dsc.Base.{◌≡◌, refl, ◌≤◌, ◌<◌, arith}
use frappe_dsc.Site.{Site, Error, err, HookCall}
use frappe_dsc.Signing.Hooks.{run_dev_hooks}
use frappe_dsc.Signing.Initiate.{InitiateReply, initiate}
use frappe_dsc.Signing.Finalize.{FinalizeCall, FinalizeReply, finalize}
use frappe_dsc.Signing.Handover.Sessions.{SparesSessions}
use frappe_dsc.Signing.Handover.{SignsFor, finalize_once, flow_signs}
use frappe_dsc.Tests.Samples.{platform, signer, signer_later}
use frappe_dsc.Tests.Records.{site, sign_pending, finish_running}

sample_spares : SparesSessions platform
sample_spares hook call = (λ s. refl, tt)

finalize_once_example :
    let t = (finalize platform signer finish_running site).1 in
    finalize platform signer_later finish_running t ≡ (err Error.session_expired, t)
unfolding finalize frappe_dsc.Site.cached frappe_dsc.Signing.Finalize.presented_fingerprint
    frappe_dsc.Base.find_row frappe_dsc.Signing.Finalize.is_mismatch
    frappe_dsc.Signing.Finalize.expected_fingerprint frappe_dsc.Base.same_lower
    frappe_dsc.Engine.finalize_signed_pdf frappe_dsc.Signing.Finalize.chain_of
    frappe_dsc.Engine.Trust.verify_signed_pdf frappe_dsc.Engine.save_signed_pdf
    frappe_dsc.Signing.Notices.add_timeline_entry frappe_dsc.Base.update_row
    frappe_dsc.Signing.Notices.send_signed_notification run_dev_hooks
finalize_once_example =
    finalize_once platform signer finish_running finish_running signer_later site sample_spares refl
      refl (omega arith)

abbrev finish_pending : FinalizeCall
finish_pending = record finish_running { session_id = "S1" }

-- The sample site after initiate.
abbrev opened : Site
opened = (initiate platform signer sign_pending site).1

flow_signs_example :
    (v : Site) × (hook : HookCall) × SignsFor platform signer_later sign_pending "PEND" v
    × ((finalize platform signer_later finish_pending opened).1
        ≡ (run_dev_hooks platform "dsc_after_sign" hook v).1)
unfolding initiate frappe_dsc.Signing.Initiate.pending_request
    frappe_dsc.Signing.Initiate.check_signer frappe_dsc.Base.find_row
    frappe_dsc.Signing.Initiate.check_location frappe_dsc.Signing.Initiate.normalise
    frappe_dsc.Signing.Initiate.load_template frappe_dsc.Signing.Initiate.uploaded_pdf
    frappe_dsc.Signing.Initiate.read_position run_dev_hooks
    frappe_dsc.Signing.Initiate.check_certificate frappe_dsc.Engine.prepare_pdf_for_signing
    frappe_dsc.Signing.Initiate.record_hash frappe_dsc.Secrets.get_or_create_hmac_secret finalize
    frappe_dsc.Signing.Finalize.presented_fingerprint frappe_dsc.Base.update_row
    frappe_dsc.Signing.Finalize.is_mismatch frappe_dsc.Signing.Finalize.expected_fingerprint
    frappe_dsc.Base.same_lower frappe_dsc.Engine.finalize_signed_pdf
    frappe_dsc.Signing.Finalize.chain_of frappe_dsc.Engine.Trust.verify_signed_pdf
    frappe_dsc.Engine.save_signed_pdf frappe_dsc.Signing.Notices.add_timeline_entry
    frappe_dsc.Signing.Notices.send_signed_notification
flow_signs_example =
    flow_signs platform signer signer_later sign_pending finish_pending site opened (omega arith)
      refl refl refl refl
