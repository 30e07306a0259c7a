-- ===== src/Tests/Reports.antt =====
-- The reports and the audit controller on the sample site.
use frappe_dsc.Base.{ℕ, ◌≡◌, refl, some, none, [], ◌∷◌, rows_where}
use frappe_dsc.Site.{Status, SigningRequest, Db}
use frappe_dsc.Reports.{Filters, VolumeRow, in_volume, one_if, sign_volume}
use frappe_dsc.Reports.Counting.{sum_of, volume_adds_up}
use frappe_dsc.Tests.Records.{request_of, signed_one, db}

abbrev all_time : Filters
all_time = record {
  from_date = none;
  to_date = none;
  profile = none;
  source_doctype = some "Invoice";
}

abbrev timed : ℕ → SigningRequest
timed seconds = record signed_one { signed_on = some 90; sign_duration_seconds = some seconds }

abbrev timed_db : Db
timed_db = record db { requests = timed 30 ∷ timed 50 ∷ request_of "PEND" Status.pending ∷ [] }

volume_adds_up_example :
    let selected = rows_where (in_volume all_time) timed_db.requests in
    let rows = sign_volume all_time timed_db in
    (sum_of (λ g. g.total) rows ≡ sum_of (λ r. 1) selected)
    × (sum_of (λ g. g.signed) rows ≡ sum_of (λ r. one_if r.status Status.signed) selected)
    × (sum_of (λ g. g.pending) rows ≡ sum_of (λ r. one_if r.status Status.pending) selected)
    × (sum_of (λ g. g.failed) rows ≡ sum_of (λ r. one_if r.status Status.failed) selected)
    × (sum_of (λ g. g.cancelled) rows ≡ sum_of (λ r. one_if r.status Status.cancelled) selected)
volume_adds_up_example = volume_adds_up all_time timed_db

volume_of_all : sum_of (λ g. g.total) (sign_volume all_time timed_db) ≡ 3
unfolding sign_volume frappe_dsc.Reports.ordered frappe_dsc.Reports.grouped rows_where
    frappe_dsc.Reports.same_volume_group frappe_dsc.Reports.first_volume
    frappe_dsc.Reports.more_volume
volume_of_all = refl
