-- ===== src/Tests/Gates.antt =====
-- Permissions, gates and jobs on the sample site.
use mathlib.Core.Option
use frappe_dsc.Base.Queries.{IsIn}
use frappe_dsc.Gates.Emailing.{Email, missing, text}
use frappe_dsc.Base.{
  inl, inr, ◌≡◌, ◌⊎◌, refl, String, ◌==◌, ◌&&◌, true, false, Option, none, some, List, [], ◌∷◌,
  Every, any_row, first_where, find_row, if◌then◌else◌,
}
use frappe_dsc.Site.{SigningRequest, Status, Error, ok, err, request_at}
use frappe_dsc.Permissions.{PermissionType, query_condition, request_has_permission}
use frappe_dsc.Permissions.Agreement.{list_agrees_with_read}
use frappe_dsc.Gates.Printing.{signed_copy, delegated, blocks_print, signed_file_for, download_pdf}
use frappe_dsc.Gates.Printing.Blocking.{print_blocked, print_serves_signed}
use frappe_dsc.Gates.Emailing.{Email, attach, make}
use frappe_dsc.Gates.Emailing.Attaching.{about, Holds, email_blocked, email_attaches}
use frappe_dsc.Jobs.{is_purgeable, cutoff_of, purge_old_requests}
use frappe_dsc.Jobs.Sweeping.{purge_forgets}
use frappe_dsc.Tests.Samples.{platform, admin}
use frappe_dsc.Tests.Records.{rule, request_of, signed_file, site, db}

list_agrees_with_read_example :
    query_condition platform "signer" (request_of "PEND" Status.pending)
    ≡ request_has_permission platform
        (request_of "PEND" Status.pending)
        PermissionType.read
        "signer"
list_agrees_with_read_example =
    list_agrees_with_read platform "signer" (request_of "PEND" Status.pending)

print_blocked_example :
    (e : Error) × (download_pdf platform admin "Invoice" "PEND" site ≡ (err e, site))
unfolding any_row blocks_print frappe_dsc.Base.rows_where signed_file_for first_where
    frappe_dsc.Gates.Printing.is_signed_for
print_blocked_example =
    print_blocked platform admin "Invoice" "PEND" site refl (refl, (refl, tt)) refl

print_serves_signed_example :
    (platform.has_permission "admin" "Invoice" (some "SIGNED") "read" ≡ true)
    × ((q : SigningRequest) × (file : String) × IsIn q db.requests
        × (q.source_doctype ≡ "Invoice")
        × (q.source_name ≡ "SIGNED")
        × (q.status ≡ Status.signed)
        × (q.signed_file ≡ some file)
        × (find_row (λ g. g.name) file db.files ≡ some signed_file))
unfolding download_pdf first_where blocks_print signed_file_for
    frappe_dsc.Gates.Printing.is_signed_for find_row
print_serves_signed_example =
    print_serves_signed platform admin "Invoice" "SIGNED" site signed_file {t = site} refl

email_blocked_example :
    make (about "Invoice" "PEND" (text "[]")) site
    ≡ (err (Error.email_needs_signature "Invoice"), site)
email_blocked_example =
    email_blocked "Invoice" "PEND" (text "[]") site refl refl rule (inr (inl refl)) refl refl refl
      (refl, (refl, (refl, (refl, tt))))

email_attaches_example :
    (mail : Email) × (make (about "Invoice" "SIGNED" missing) site ≡ (ok mail, site))
    × Holds signed_file mail
unfolding frappe_dsc.Gates.Emailing.may_email signed_file_for first_where find_row
email_attaches_example =
    email_attaches "Invoice" "SIGNED" missing site refl refl "F1" {f = signed_file} refl refl refl

purge_forgets_example :
    let (r, t) = purge_old_requests platform admin site in
    (r ≡ ok tt)
    × (request_at "FAIL" t ≡ (
        if any_row
          (λ r. r.name == "FAIL" && is_purgeable platform admin (cutoff_of platform admin db) r)
          db.requests
        then none
        else request_at "FAIL" site))
    × (t.db.audit_events ≡ [])
purge_forgets_example = purge_forgets platform admin "FAIL" site
