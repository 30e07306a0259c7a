-- ===== src/Signing/Progress/Reopening.antt =====
-- api/signing.py, get_signing_status: no request is stuck In Progress.
pub mod Looping
use mathlib.Core.Path.{subst}
use mathlib.Core.Option
use frappe_dsc.Base.{
  String, ◌==◌, ◌≡◌, ◌⊎◌, refl, sym, ap, ◌∙◌, Bool, true, false, ◌&&◌, some, List, [], ◌∷◌, arith,
  eq_iff, eq_refl, leb, rows_where, find_row, update_row, key-find_row, find_row-update_row,
  Bool-cases, inl, inr, if◌then◌else◌,
}
use frappe_dsc.Base.Queries.{IsIn, IsIn-rows_where, IsIn-find_row, first_where-found}
use frappe_dsc.Site.{Status, Site, SigningRequest, ok, Context, request_at}
use frappe_dsc.Signing.Progress.{
  StatusInfo, insert_newest, newest_first, is_stale, recover, recover_all, status_of,
  status_or_none, get_signing_status,
}
use frappe_dsc.Signing.Initiate.{PendingRequest, is_pending_for, pending_request}
use frappe_dsc.Signing.Progress.Reopening.Looping.{
  back_to_pending, IsIn-newest_first, reopened_all, recover_all_lem, opens,
}

module _ (ctx : Context) (doctype docname name : String) (s : Site) {r : SigningRequest}
    (found : request_at name s ≡ some r)
    (of_document : (r.source_doctype == doctype && r.source_name == docname) ≡ true)
    (stale : is_stale ctx r ≡ true) where
  rows_of : List SigningRequest
  rows_of =
      newest_first
        (rows_where (λ q. q.source_doctype == doctype && q.source_name == docname) s.db.requests)

  listed : IsIn r rows_of
  unfolding rows_of
  listed = IsIn-newest_first r _ (
      IsIn-rows_where (λ q. q.source_doctype == doctype && q.source_name == docname) r s.db.requests
        of_document (IsIn-find_row (λ q. q.name) name s.db.requests found))

  named : r.name ≡ name
  named = key-find_row (λ q. q.name) name s.db.requests found

  pending_again : is_pending_for doctype docname (back_to_pending r) ≡ true
  unfolding is_pending_for
  pending_again = ground arith

  answered :
      (xs : List SigningRequest)
      → IsIn r xs
      → (info : StatusInfo) × (t : Site) × (status_or_none ctx doctype docname xs s ≡ (ok info, t))
        × (t.db.requests ≡ reopened_all ctx xs s.db.requests)
  unfolding status_or_none
  answered [] h = elim h [ ]
  answered (x ∷ xs) h =
      let (qs, t, e, same) = recover_all_lem ctx doctype docname (x ∷ xs) s in
      (status_of ctx qs, t, rw e refl, same)

  open_again :
      (t : Site)
      → t.db.requests ≡ reopened_all ctx rows_of s.db.requests
      → request_at name t ≡ some (back_to_pending r)
  open_again t same =
      ap (find_row (λ q. q.name) name) same
      ∙ subst
          (λ k.
            find_row (λ q. q.name) k (reopened_all ctx rows_of s.db.requests)
            ≡ some (back_to_pending r))
          named
          (opens ctx r rows_of s.db.requests stale listed
            (subst (λ k. find_row (λ q. q.name) k s.db.requests ≡ some r) (sym named) found))

  signable :
      (t : Site)
      → request_at name t ≡ some (back_to_pending r)
      → (p : PendingRequest) × (pending_request doctype docname t.db ≡ some p)
  unfolding pending_request
  signable t there =
      let passes : is_pending_for doctype docname (back_to_pending r) ≡ true = pending_again in
      let (b, first) =
        first_where-found (is_pending_for doctype docname) {a = back_to_pending r} t.db.requests
          (IsIn-find_row (λ q. q.name) name t.db.requests there) passes in
      (
        record {
          name = b.name;
          profile = b.profile;
          signature_template = b.signature_template;
          expected_signer_user = b.expected_signer_user;
        },
        rw first refl,
      )

  -- No request is stuck In Progress: once it was not modified for 300 seconds, the next question for
  -- the status of its document is answered, makes it Pending, and initiate then finds a pending
  -- request for the document.
  pub stale_reopens :
      (info : StatusInfo) × (t : Site) × (get_signing_status ctx doctype docname s ≡ (ok info, t))
      × (request_at name t ≡ some (record r { status = Status.pending }))
      × (p : PendingRequest) × (pending_request doctype docname t.db ≡ some p)
  unfolding get_signing_status rows_of
  stale_reopens =
      let (info, t, e, same) = answered rows_of listed in
      let there = open_again t same in
      (info, t, e, there, (signable t there).0, (signable t there).1)
