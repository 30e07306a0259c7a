-- ===== src/System/Keeping/Preparing.antt =====
-- signing_engine.py and signature_anchor.py: what prepare_pdf_for_signing keeps.
use frappe_dsc.Base.{[], ◌∷◌, String, Option, some, none, List, or_text}
use frappe_dsc.Site.{
  Action, SignatureTemplate, Site, Result, ok, err, lift, TextLine, Platform, Context,
}
use frappe_dsc.Engine.{
  AnchorBox, first_anchor, anchor_in, or_next, Placement, PrepareRequest, locate_signature_anchor,
  signature_spot, pdf_to_sign, prepare_pdf_for_signing,
}
use frappe_dsc.System.Keeping.{Baseline, tried, IsKept, Keeps, after}

module _ (P : Platform) (base : Baseline) (ctx : Context) where
  pdf_to_sign-Keeps : (q : PrepareRequest) → Keeps P base (pdf_to_sign P q)
  unfolding pdf_to_sign
  pdf_to_sign-Keeps q s h = rendered q.pdf_bytes
    where
      rendered :
          (bytes : Option String)
          → IsKept P base
              (elim bytes as (λ _. Result String × Site) [
                | some b ↦ (ok b, s)
                | none ↦ (P.render_pdf s.db q.doctype q.docname (or_text q.print_format ""), s)
              ]).1
      rendered none = h
      rendered (some b) = h

  or_next-Keeps :
      (o : Option AnchorBox) (next : Action (Option AnchorBox))
      → Keeps P base next
      → Keeps P base (or_next o next)
  or_next-Keeps none next kn s h = kn s h
  or_next-Keeps (some a) next kn s h = h

  first_anchor-Keeps : (lines : List (Result TextLine)) → Keeps P base (first_anchor lines)
  unfolding first_anchor
  first_anchor-Keeps [] s h = h
  first_anchor-Keeps (err e ∷ rest) s h = h
  first_anchor-Keeps (ok line ∷ rest) s h =
      or_next-Keeps (anchor_in line) (first_anchor rest) (first_anchor-Keeps rest) s h

  locate-Keeps : (pdf : String) → Keeps P base (locate_signature_anchor P pdf)
  unfolding locate_signature_anchor
  locate-Keeps pdf s h =
      tried (first_anchor (P.text_lines pdf) s) _ (first_anchor-Keeps (P.text_lines pdf) s h)
        λ e s1 h1. record { running = h1.running; committed = h1.committed }

  signature_spot-Keeps :
      (pdf : String) (placement : Option Placement) (t : SignatureTemplate)
      → Keeps P base (signature_spot P pdf placement t)
  unfolding signature_spot
  signature_spot-Keeps pdf (some p) t s h = h
  signature_spot-Keeps pdf none t s h =
      after (locate_signature_anchor P pdf s) _ (locate-Keeps pdf s h) λ anchor s1 h1. h1

  pub prepare-Keeps : (q : PrepareRequest) → Keeps P base (prepare_pdf_for_signing P ctx q)
  unfolding prepare_pdf_for_signing
  prepare-Keeps q s h = after (pdf_to_sign P q s) _ (pdf_to_sign-Keeps q s h) λ pdf s1 h1.
      after (signature_spot P pdf q.placement q.template s1) _
        (signature_spot-Keeps pdf q.placement q.template s1 h1)
        λ spot s2 h2. after (lift (P.load_certificate q.cert_der) s2) _ h2 λ _ s3 h3.
          after (lift (P.digest_pdf _) s3) _ h3
            λ digest s4 h4. record { running = h4.running; committed = h4.committed }
