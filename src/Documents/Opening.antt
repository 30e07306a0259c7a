-- ===== src/Documents/Opening.antt =====
-- dsc_document_sign.py: a record has at most one open request.
use frappe_dsc.Base.{String, ◌≡◌, true, first_where, eq_refl, Option-cases, inl, inr, Bool-cases}
use frappe_dsc.Base.Queries.{first_where-last}
use frappe_dsc.Site.{Site, DocumentSign, ok, Platform, Context}
use frappe_dsc.Documents.{is_ready, is_open_for, document_request, once, on_update}

module _ (P : Platform) (ctx : Context) (doc : DocumentSign) (s : Site) where
  is_open_for-document_request :
      (request : String) → is_open_for doc.name (document_request P ctx request doc) ≡ true
  unfolding is_open_for document_request
  is_open_for-document_request request = rw (eq_refl doc.name)

  -- Running on_update of a record again makes no second request, and changes nothing.
  pub on_update_idem : let t = (on_update P ctx doc s).1 in on_update P ctx doc t ≡ (ok tt, t)
  unfolding on_update once
  on_update_idem = elim (Bool-cases (is_ready doc)) [
    | inr idle ↦ rw idle
    | inl ready ↦ elim (Option-cases (first_where (is_open_for doc.name) s.db.requests)) [
      | inl missing ↦ rw (
        ready,
        missing,
        first_where-last (is_open_for doc.name) s.db.requests
            (document_request P ctx (P.new_name "DSC Signing Request" s.db) doc) missing
            (is_open_for-document_request (P.new_name "DSC Signing Request" s.db)),
      )
      | inr (r, found) ↦ rw (ready, found, found)
    ]
  ]
