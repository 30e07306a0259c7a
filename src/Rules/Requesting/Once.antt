-- ===== src/Rules/Requesting/Once.antt =====
-- rule_engine.py: create_signing_request makes at most one request for a document and a rule.
use frappe_dsc.Base.{
  String, ◌≡◌, refl, Bool, true, false, ◌&&◌, Option, [], ◌∷◌, ◌++◌, arith, first_where,
  Option-cases, Bool-cases, inl, inr, eq_refl, truthy, is_text, not,
}
use frappe_dsc.Base.Queries.{first_where-last}
use frappe_dsc.Site.{Site, Rule, Error, ok, err, when, pure, ◌>>◌, Platform, Context}
use frappe_dsc.Rules.Requesting.{
  tell_signer, is_request_for, insert_request, new_request, create_signing_request,
  resolve_signer_user,
}

module _ (P : Platform) (ctx : Context) where
  -- Mail and ToDo, sent or not, leave the requests alone.
  tell_signer-requests :
      (request doctype name signer : String) (s : Site)
      → ((tell_signer P ctx request doctype name signer s).0 ≡ ok tt)
        × ((tell_signer P ctx request doctype name signer s).1.db.requests ≡ s.db.requests)
  unfolding tell_signer
  tell_signer-requests request doctype name signer s = ground arith

  then_request :
      (c : Bool) (request doctype name signer : String) (s : Site)
      → (((when c (tell_signer P ctx request doctype name signer) >> pure request) s).0
          ≡ ok request)
        × (((when c (tell_signer P ctx request doctype name signer) >> pure request)
              s).1.db.requests
            ≡ s.db.requests)
  then_request false request doctype name signer s = (refl, refl)
  then_request true request doctype name signer s =
      let told = tell_signer-requests request doctype name signer s in rw told.0 (refl, told.1)

  module _ (doctype name : String) (rule : Rule) (s : Site) where
    insert_request_lem :
        truthy rule.profile ≡ true
        → let request = P.new_name "DSC Signing Request" s.db in
          let signer = resolve_signer_user ctx rule.profile s.db in
          ((insert_request P ctx doctype name rule s).0 ≡ ok request)
          × ((insert_request P ctx doctype name rule s).1.db.requests
              ≡ s.db.requests ++ new_request ctx request doctype name rule signer ∷ [])
    unfolding insert_request
    insert_request_lem filled =
        let signer = resolve_signer_user ctx rule.profile s.db in
        rw filled (then_request (truthy signer && not (is_text signer "Administrator")) _ _ _ _ _)

    is_request_for-new_request :
        (request : String) (signer : Option String)
        → is_request_for doctype name rule.name (new_request ctx request doctype name rule signer)
          ≡ true
    unfolding is_request_for new_request
    is_request_for-new_request request signer =
        rw (eq_refl doctype, eq_refl name, eq_refl rule.name)

    insert_request-unfilled :
        truthy rule.profile ≡ false
        → insert_request P ctx doctype name rule s ≡ (
          err (
              Error.mandatory_missing "DSC Signing Request"
                (P.new_name "DSC Signing Request" s.db)),
          s,
        )
    unfolding insert_request
    insert_request-unfilled empty = rw empty refl

    -- After a request of a document and a rule was created or found, creating it again gives the
    -- same result and changes nothing.
    pub create_idem :
        let (r, t) = create_signing_request P ctx doctype name rule s in
        create_signing_request P ctx doctype name rule t ≡ (r, t)
    unfolding create_signing_request new_request
    create_idem =
        elim (Option-cases (first_where (is_request_for doctype name rule.name) s.db.requests)) [
          | inl missing ↦ elim (Bool-cases (truthy rule.profile)) [
            | inr empty ↦
                rw (missing, insert_request-unfilled empty, missing, insert_request-unfilled empty)
                  refl
            | inl filled ↦
                let made = insert_request_lem filled in
                rw (
                  missing,
                  made.1,
                  first_where-last (is_request_for doctype name rule.name) s.db.requests _ missing (
                      is_request_for-new_request (P.new_name "DSC Signing Request" s.db)
                        (resolve_signer_user ctx rule.profile s.db)),
                  made.0,
                )
          ]
          | inr (q, found) ↦ rw (found, found)
        ]
