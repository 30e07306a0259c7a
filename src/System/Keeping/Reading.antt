-- ===== src/System/Keeping/Reading.antt =====
-- print_gate.py, email_gate.py and api/evidence.py: handlers that only read.
use frappe_dsc.Base.{String, ◌&&◌, not, Option, some, none, [], truthy, get_or, first_where}
use frappe_dsc.Site.{
  SigningRequest, Rule, Status, same_status, Error, pure, raise_if, get_request, get_file,
  get_profile, Platform, Context,
}
use frappe_dsc.Gates.{
  blocks_print, signed_file_for, serve_or_block, gate, download_pdf, Email, may_email, load_file,
  gated, make,
}
use frappe_dsc.Evidence.{may_read, signed_part, export_evidence_pack}
use frappe_dsc.System.Keeping.{Baseline, Keeps, after, branches, or_raise-Keeps, get_request-Keeps}

module _ (P : Platform) (base : Baseline) (ctx : Context) where
  serve_or_block-Keeps :
      (doctype : String) (rule : Rule) (file : Option String)
      → Keeps P base (serve_or_block doctype rule file)
  unfolding serve_or_block
  serve_or_block-Keeps doctype rule (some file) s h =
      after (get_file file s) _ (or_raise-Keeps _ _ s h) λ f s1 h1. h1
  serve_or_block-Keeps doctype rule none s h =
      after (raise_if rule.is_mandatory (Error.print_needs_signature doctype) s) _ h λ _ s1 h1. h1

  gate-Keeps :
      (doctype name : String) (rule : Option Rule) → Keeps P base (gate P ctx doctype name rule)
  unfolding gate
  gate-Keeps doctype name none s h = h
  gate-Keeps doctype name (some rule) s h =
      after
        (raise_if (not (P.has_permission ctx.user doctype (some name) "read"))
          (Error.permission_denied doctype name) s)
        _ h λ _ s1 h1. serve_or_block-Keeps doctype rule (signed_file_for doctype name s1.db) s1 h1

  pub download_pdf-Keeps : (doctype name : String) → Keeps P base (download_pdf P ctx doctype name)
  unfolding download_pdf
  download_pdf-Keeps doctype name s h =
      gate-Keeps doctype name (first_where (blocks_print doctype) s.db.rules) s h

  load_file-Keeps : (file : Option String) → Keeps P base (load_file file)
  unfolding load_file
  load_file-Keeps none s h = h
  load_file-Keeps (some name) s h = after (get_file name s) _ (or_raise-Keeps _ _ s h) λ f s1 h1. h1

  gated-Keeps : (doctype name : String) (mail : Email) → Keeps P base (gated doctype name mail)
  unfolding gated
  gated-Keeps doctype name mail s h =
      after (raise_if (not (may_email doctype name s.db)) (Error.email_needs_signature doctype) s) _
        h
        λ _ s1 h1.
          after (load_file (signed_file_for doctype name s1.db) s1) _
            (load_file-Keeps (signed_file_for doctype name s1.db) s1 h1) λ f s2 h2. h2

  pub make-Keeps : (mail : Email) → Keeps P base (make mail)
  unfolding make
  make-Keeps mail =
      branches (truthy mail.doctype && truthy mail.name)
        (gated (get_or mail.doctype "") (get_or mail.name "") mail) (pure mail)
        (gated-Keeps (get_or mail.doctype "") (get_or mail.name "") mail) (λ s h. h)

  signed_part-Keeps : (req : SigningRequest) → Keeps P base (signed_part req)
  unfolding signed_part
  signed_part-Keeps req =
      branches (truthy req.signed_file) _ (pure [])
        (λ s h.
          after (get_file (get_or req.signed_file "") s) _ (or_raise-Keeps _ _ s h) λ f s1 h1. h1)
        (λ s h. h)

  pub export_evidence_pack-Keeps : (name : String) → Keeps P base (export_evidence_pack P ctx name)
  unfolding export_evidence_pack
  export_evidence_pack-Keeps name s h =
      after (get_request name s) _ (get_request-Keeps name s h) λ req s1 h1.
        after
          (raise_if (not (may_read P ctx req)) (Error.permission_denied "DSC Signing Request" name)
            s1)
          _ h1
          λ _ s2 h2.
            after
              (raise_if (not (same_status req.status Status.signed)) Error.evidence_not_signed s2) _
              h2
              λ _ s3 h3. after (signed_part req s3) _ (signed_part-Keeps req s3 h3) λ signed s4 h4.
                after (get_profile req.profile s4) _ (or_raise-Keeps _ _ s4 h4) λ profile s5 h5. h5
