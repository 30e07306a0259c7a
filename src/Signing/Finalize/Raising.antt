-- ===== src/Signing/Finalize/Raising.antt =====
-- api/signing.py, finalize: what the body of the `try` leaves when it raises.
use frappe_dsc.Base.{String, ◌≡◌, refl, ap, ◌∙◌, some, find_row, ◌<>◌, get_or, Bool-cases, inl, inr}
use frappe_dsc.Site.{
  Site, SigningRequest, try_except, Platform, Context, HookCall, pure, ◌>>◌, set_request,
  request_at,
}
use frappe_dsc.Site.Inversion.{RaisesIn, RaisesIn-continue}
use frappe_dsc.Engine.{Verification, finalize_signed_pdf, verify_signed_pdf, save_signed_pdf}
use frappe_dsc.Signing.Hooks.{run_dev_hooks}
use frappe_dsc.Signing.Hooks.Swallowing.{run_dev_hooks_ok}
use frappe_dsc.Signing.Notices.{add_timeline_entry, send_signed_notification}
use frappe_dsc.Signing.Finalize.{
  FinalizeCall, FinalizeReply, chain_of, is_unsigned, failed_row, require_signature, signed_row,
  mirror_signed, complete,
}
use frappe_dsc.Signing.Finalize.Steps.{
  sign-keeps_db, verify-same, save-same, mirror-same, timeline-same, notification-same, logged-same,
  request-set_request,
}

-- The request of a name is there.
unfoldable pub IsThere : String → Site → Type 0
IsThere name s = (q : SigningRequest) × (request_at name s ≡ some q)

still-IsThere :
    (name : String) (s t : Site) → IsThere name s → t.db.requests ≡ s.db.requests → IsThere name t
unfolding IsThere
still-IsThere name s t (q, found) same = (q, ap (find_row (λ r. r.name) name) same ∙ found)

module _ (P : Platform) (ctx : Context) (call : FinalizeCall) (name : String) where
  IsThere-set_request :
      (f : SigningRequest → SigningRequest) (s : Site)
      → ((r : SigningRequest) → (f r).name ≡ r.name)
      → IsThere name s
      → IsThere name (set_request ctx name f s).1
  unfolding IsThere
  IsThere-set_request f s keep (q, found) = (_, request-set_request ctx name f s keep found)

  require_signature-IsThere :
      (v : Verification) (s : Site)
      → IsThere name s
      → IsThere name (require_signature P ctx name v s).1
  unfolding require_signature failed_row IsThere
  require_signature-IsThere v s there = elim (Bool-cases (is_unsigned v)) [
    | inl bad ↦ rw bad (
        IsThere-set_request
          (failed_row ("Signed PDF verification failed: " <> get_or v.error "Unknown")) s
          (λ r. refl) there)
    | inr fine ↦ rw fine there
  ]

  RaisesIn-after_hooks :
      (R : Site → Type 0) (hook : String) (hook_call : HookCall) (s : Site) (reply : FinalizeReply)
      → RaisesIn R ((run_dev_hooks P hook hook_call >> pure reply) s)
  unfolding RaisesIn
  RaisesIn-after_hooks R hook hook_call s reply = rw (run_dev_hooks_ok P hook hook_call s) tt

  -- If complete raises, the request is still there.
  pub complete-raises :
      (s : Site) → IsThere name s → RaisesIn (IsThere name) (complete P ctx call name s)
  unfolding complete signed_row RaisesIn
  complete-raises s there =
      RaisesIn-continue (IsThere name)
        (finalize_signed_pdf P ctx call.session_id call.signature_bytes_b64 (chain_of P call.chain)
          s)
        _
        (still-IsThere name s _ there (
          ap (λ d. d.requests)
            (sign-keeps_db P ctx call.session_id call.signature_bytes_b64 (chain_of P call.chain)
              s)))
        λ signed s1 e1 there1.
          RaisesIn-continue (IsThere name) (verify_signed_pdf P signed.signed_pdf_bytes s1) _
            (still-IsThere name s1 _ there1 (verify-same P ctx signed.signed_pdf_bytes s1).0)
            λ v s2 e2 there2.
              RaisesIn-continue (IsThere name) (require_signature P ctx name v _) _
                (require_signature-IsThere v _ (still-IsThere name s2 _ there2 refl))
                λ _ s3 e3 there3.
                  RaisesIn-continue (IsThere name) (save_signed_pdf P ctx signed s3) _
                    (still-IsThere name s3 _ there3 (save-same P ctx signed s3).0)
                    λ file s4 e4 there4.
                      let marked : Site =
                        (set_request ctx name (signed_row P ctx call signed file) s4).1 in
                      RaisesIn-continue (IsThere name) (mirror_signed P ctx signed file marked) _
                        (still-IsThere name marked _
                          (IsThere-set_request (signed_row P ctx call signed file) s4 (λ r. refl)
                            there4)
                          (mirror-same P ctx signed file marked).0)
                        λ _ s5 e5 there5.
                          RaisesIn-continue (IsThere name)
                            (add_timeline_entry P ctx signed.doctype signed.docname name _) _
                            (still-IsThere name s5 _ there5
                              (timeline-same P ctx signed.doctype signed.docname name _).0)
                            λ _ s6 e6 there6.
                              RaisesIn-continue (IsThere name)
                                (try_except
                                  (send_signed_notification P ctx signed.doctype signed.docname
                                    name)
                                  _ s6)
                                _
                                (still-IsThere name s6 _ there6
                                  (logged-same
                                    (send_signed_notification P ctx signed.doctype signed.docname
                                      name)
                                    _ s6
                                    (notification-same P ctx signed.doctype signed.docname name
                                      s6)).0)
                                λ _ s7 e7 there7.
                                  RaisesIn-after_hooks (IsThere name) "dsc_after_sign" _ _ _
