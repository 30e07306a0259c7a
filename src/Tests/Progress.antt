-- ===== src/Tests/Progress.antt =====
-- A stale attempt on the sample site.
use frappe_dsc.Base.{◌≡◌, refl, String, true, false, some, none}
use frappe_dsc.Site.{Status, Site, ok, request_at}
use frappe_dsc.Signing.Initiate.{PendingRequest, pending_request}
use frappe_dsc.Signing.Progress.{StatusInfo, is_stale, get_signing_status}
use frappe_dsc.Signing.Progress.Reopening.{stale_reopens}
use frappe_dsc.Tests.Samples.{signer}
use frappe_dsc.Tests.Records.{request_of, site}

stale_reopens_example :
    (info : StatusInfo) × (t : Site) × (get_signing_status signer "Invoice" "RUN" site
      ≡ (ok info, t))
    × (request_at "RUN" t
        ≡ some (record (request_of "RUN" Status.in_progress) { status = Status.pending }))
    × (p : PendingRequest) × (pending_request "Invoice" "RUN" t.db ≡ some p)
unfolding frappe_dsc.Base.find_row is_stale
stale_reopens_example = stale_reopens signer "Invoice" "RUN" "RUN" site refl refl refl
