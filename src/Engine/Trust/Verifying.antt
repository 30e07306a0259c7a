-- ===== src/Engine/Trust/Verifying.antt =====
-- signing_engine.py: what verify_signed_pdf promises.
use frappe_dsc.Base.{
  String, ◌≡◌, ◌≢◌, ap, Bool, true, Option, List, [], ◌∷◌, arith, all_rows, Every, inl, inr,
}
use frappe_dsc.Site.{Site, Result, ok, err, Error, Platform, pure}
use frappe_dsc.Site.Inversion.{outcome}
use frappe_dsc.Engine.Trust.{
  Verification, load_trust_store, signature_result, validate_all, verdict, verify_signatures,
  verify_signed_pdf,
}

module _ (P : Platform) where
  trust_store_silent : (s : Site) {e : Error} {u : Site} → load_trust_store P s ≡ (err e, u) → ⊥
  unfolding load_trust_store
  trust_store_silent s h = ground arith

  signature_result-valid :
      (sig : String) (r : Result Bool) → (signature_result P sig r).bottom_line ≡ true → r ≡ ok true
  unfolding signature_result
  signature_result-valid sig (ok valid) h = ap ok h
  signature_result-valid sig (err e) h = absurd (cc)

  all_valid :
      (trust : Option (List String)) (sigs : List String)
      → all_rows (λ r. r.bottom_line) (validate_all P trust sigs) ≡ true
      → Every (λ sig. P.validate_signature trust sig ≡ ok true) sigs
  unfolding validate_all all_rows
  all_valid trust [] h = tt
  all_valid trust (sig ∷ rest) h =
      let now : (signature_result P sig (P.validate_signature trust sig)).bottom_line ≡ true =
        ground arith in
      let later : all_rows (λ r. r.bottom_line) (validate_all P trust rest) ≡ true = ground arith in
      (signature_result-valid sig (P.validate_signature trust sig) now, all_valid trust rest later)

  at_valid :
      (trust : Option (List String)) (sigs : List String) {w t : Site} {v : Verification}
      → v.is_valid ≡ true
      → pure (verdict P trust (validate_all P trust sigs)) w ≡ (ok v, t)
      → all_rows (λ r. r.bottom_line) (validate_all P trust sigs) ≡ true
  unfolding verdict
  at_valid trust sigs valid h = ground arith

  -- A PDF that counts as valid has signatures, and pyHanko validated each of them with the anchors
  -- of one trust store.
  pub verify_sound :
      (pdf : String) (s : Site) {v : Verification} {t : Site}
      → verify_signed_pdf P pdf s ≡ (ok v, t)
      → v.is_valid ≡ true
      → (trust : Option (List String)) × (sigs : List String) × (P.embedded_signatures pdf
          ≡ ok sigs)
        × (sigs ≢ [])
        × Every (λ sig. P.validate_signature trust sig ≡ ok true) sigs
  unfolding verify_signed_pdf verify_signatures
  verify_sound pdf s {v} {t} h valid = elim (outcome (P.embedded_signatures pdf, s)) [
    | inl (e, u, bad) ↦ let failed : P.embedded_signatures pdf ≡ err e = cc in absurd (ground arith)
    | inr ([], u, found) ↦
        let empty : P.embedded_signatures pdf ≡ ok [] = cc in absurd (ground arith)
    | inr (sig ∷ rest, u, found) ↦
        let present : P.embedded_signatures pdf ≡ ok (sig ∷ rest) = cc in
        elim (outcome (load_trust_store P s)) [
          | inl (e, w, failed) ↦ absurd (trust_store_silent s failed)
          | inr (trust, w, loaded) ↦
              let checked : all_rows (λ r. r.bottom_line) (validate_all P trust (sig ∷ rest))
                  ≡ true =
                at_valid trust (sig ∷ rest) valid (rw (present, loaded) at h) in
              (trust, sig ∷ rest, present, (λ e. cc), all_valid trust (sig ∷ rest) checked)
        ]
  ]
