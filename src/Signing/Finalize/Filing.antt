-- ===== src/Signing/Finalize/Filing.antt =====
-- api/signing.py, finalize: the file of the signed PDF, and what the later steps leave of it.
use mathlib.Core.Path.{subst}
use frappe_dsc.Base.{sym, String, ◌≡◌, refl, ap, false, some, List, [], ◌∷◌, ◌++◌, inr, inl, arith}
use frappe_dsc.Base.Queries.{IsIn}
use frappe_dsc.Site.{
  Site, SigningRequest, File, Result, ok, err, Action, Done, handle, try_except, Platform, Context,
  log_error, request_at,
}
use frappe_dsc.Site.Inversion.{went_through, pure-returns}
use frappe_dsc.Engine.{choose_names, signed_file_row, SignedPdf, verify_signed_pdf, save_signed_pdf}
use frappe_dsc.Signing.Notices.{add_timeline_entry, send_signed_notification}
use frappe_dsc.Signing.Finalize.{FinalizeReply, is_unsigned, mirror_signed}

abbrev pub SameFiles : Site → Site → Type 0
SameFiles s t = t.db.files ≡ s.db.files

-- The request points to a stored file, and the verdict of the reply is the one on the content of that
-- file, which has a signature that was verified or found.
abbrev pub IsFiled : Platform → String → Site → FinalizeReply → Type 0
IsFiled P name u reply =
    (q : SigningRequest) × (file : File) × (v : Site) × (request_at name u ≡ some q)
    × (q.signed_file ≡ some file.name)
    × IsIn file u.db.files
    × (reply.file_name ≡ file.file_name)
    × ((verify_signed_pdf P file.content v).0 ≡ ok reply.verification)
    × (is_unsigned reply.verification ≡ false)

IsIn-last : (files : List File) (f : File) → IsIn f (files ++ f ∷ [])
IsIn-last [] f = inl refl
IsIn-last (g ∷ rest) f = inr (IsIn-last rest f)

-- A step whose error is logged.
pub logged-files :
    (m : Action Done) (title : String) (s : Site)
    → SameFiles s (m s).1
    → SameFiles s (try_except m (λ e. log_error title) s).1
logged-files m title s same = ended (m s) same
  where
    ended :
        (p : Result Done × Site)
        → SameFiles s p.1
        → SameFiles s (handle (λ e. log_error title) p.0 p.1).1
    ended (ok a, t) same = same
    ended (err e, t) same = same

module _ (P : Platform) (ctx : Context) where
  pub save-stores :
      (r : SignedPdf) (s : Site) {f : File} {t : Site}
      → save_signed_pdf P ctx r s ≡ (ok f, t)
      → IsIn f t.db.files × (f.content ≡ r.signed_pdf_bytes)
  unfolding save_signed_pdf
  save-stores r s {f} h = went_through (choose_names P ctx r s) h λ stored u e h'.
      let (same, ended) = pure-returns (signed_file_row P ctx r stored) _ h' in
      (
        subst (λ z. IsIn f z.db.files) ended
            (subst (λ g. IsIn g (u.db.files ++ signed_file_row P ctx r stored ∷ [])) same
              (IsIn-last u.db.files (signed_file_row P ctx r stored))),
        sym (ap (λ g. g.content) same),
      )

  pub mirror-files :
      (r : SignedPdf) (f : File) (s : Site) → SameFiles s (mirror_signed P ctx r f s).1
  unfolding mirror_signed
  mirror-files r f s = ground arith

  pub timeline-files :
      (doctype docname name : String) (s : Site)
      → SameFiles s (add_timeline_entry P ctx doctype docname name s).1
  unfolding add_timeline_entry
  timeline-files doctype docname name s = ground arith

  pub notification-files :
      (doctype docname name : String) (s : Site)
      → SameFiles s (send_signed_notification P ctx doctype docname name s).1
  unfolding send_signed_notification
  notification-files doctype docname name s = ground arith
