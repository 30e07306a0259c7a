-- ===== src/Signing/Progress/Recovering.antt =====
-- api/signing.py: what get_signing_status answers.
use mathlib.Core.Path.{subst}
use frappe_dsc.Base.{
  String, ◌==◌, ◌≡◌, ◌≢◌, ◌⊎◌, refl, true, false, ◌&&◌, List, [], ◌∷◌, arith, all_rows, rows_where,
  Every, inl, inr,
}
use frappe_dsc.Site.{Status, Site, SigningRequest, ok, Context, same_status, eq_of_same_status}
use frappe_dsc.Site.Inversion.{went_through, pure-returns}
use frappe_dsc.Signing.Progress.{
  all_signed, not_applicable, StatusInfo, newest_first, overall_status, is_stale, recover,
  recover_all, status_of, status_or_none, get_signing_status,
}

module _ (ctx : Context) (doctype docname : String) where
  recover-settles :
      (r : SigningRequest) (s : Site) {q : SigningRequest} {t : Site}
      → recover ctx doctype docname r s ≡ (ok q, t)
      → is_stale ctx q ≡ false
  unfolding recover is_stale
  recover-settles r s h = ground arith

  recover_all-settles :
      (rows : List SigningRequest) (s : Site) {qs : List SigningRequest} {t : Site}
      → recover_all ctx doctype docname rows s ≡ (ok qs, t)
      → Every (λ q. is_stale ctx q ≡ false) qs
  unfolding recover_all
  recover_all-settles [] s h =
      subst (Every (λ q. is_stale ctx q ≡ false)) (pure-returns [] s h).0 tt
  recover_all-settles (r ∷ rest) s h =
      went_through (recover ctx doctype docname r s) h λ q s1 e1 h1.
        went_through (recover_all ctx doctype docname rest s1) h1 λ qs s2 e2 h2.
          subst (Every (λ q. is_stale ctx q ≡ false)) (pure-returns (q ∷ qs) s2 h2).0
            (recover-settles r s e1, recover_all-settles rest s1 e2)

  recover_all-filled :
      (r : SigningRequest) (rest : List SigningRequest) (s : Site) {qs : List SigningRequest}
      {t : Site}
      → recover_all ctx doctype docname (r ∷ rest) s ≡ (ok qs, t)
      → qs ≢ []
  unfolding recover_all
  recover_all-filled r rest s h = went_through (recover ctx doctype docname r s) h λ q s1 e1 h1.
      went_through (recover_all ctx doctype docname rest s1) h1
        λ qs s2 e2 h2. let full = (pure-returns (q ∷ qs) s2 h2).0 in λ empty. absurd (cc)

  abbrev Settled : StatusInfo → Type 0
  Settled info =
      Every (λ q. is_stale ctx q ≡ false) info.signing_requests
      × ((info.status ≡ not_applicable)
          ⊎ ((info.signing_requests ≢ []) × (info.status ≡ overall_status info.signing_requests)))

  -- What is answered: nothing for no requests, or the status of settled requests.
  answers :
      (rows : List SigningRequest) (s : Site) {info : StatusInfo} {t : Site}
      → status_or_none ctx doctype docname rows s ≡ (ok info, t)
      → Settled info
  unfolding status_or_none status_of
  answers [] s h = subst Settled (pure-returns _ s h).0 (tt, inl refl)
  answers (r ∷ rest) s h =
      went_through (recover_all ctx doctype docname (r ∷ rest) s) h λ rows s1 e1 h1.
        subst Settled (pure-returns (status_of ctx rows) s1 h1).0
          (recover_all-settles (r ∷ rest) s e1, inr (recover_all-filled r rest s e1, refl))

all_signed_rows :
    (rows : List SigningRequest)
    → all_rows (λ r. same_status r.status Status.signed) rows ≡ true
    → Every (λ r. r.status ≡ Status.signed) rows
unfolding all_rows
all_signed_rows [] h = tt
all_signed_rows (r ∷ rest) h =
    (eq_of_same_status r.status Status.signed (ground arith), all_signed_rows rest (ground arith))

abbrev found : String → String → Site → List SigningRequest
found doctype docname s =
    newest_first
      (rows_where (λ r. r.source_doctype == doctype && r.source_name == docname) s.db.requests)

module _ (ctx : Context) (doctype docname : String) (s : Site) {info : StatusInfo} {t : Site}
    (asked : get_signing_status ctx doctype docname s ≡ (ok info, t)) where
  -- No request in the answer is a stale attempt.
  pub status_settled : Every (λ r. is_stale ctx r ≡ false) info.signing_requests
  unfolding get_signing_status
  status_settled = (answers ctx doctype docname (found doctype docname s) s asked).0

  -- The document counts as signed only if it has requests and all of them are Signed.
  pub status_all_signed :
      info.status ≡ all_signed
      → (info.signing_requests ≢ []) × Every (λ r. r.status ≡ Status.signed) info.signing_requests
  unfolding get_signing_status overall_status
  status_all_signed h = elim (answers ctx doctype docname (found doctype docname s) s asked).1 [
    | inl none_at_all ↦ absurd (cc)
    | inr (filled, overall) ↦ (filled, all_signed_rows info.signing_requests (ground arith))
  ]
