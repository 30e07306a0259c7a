-- ===== src/Engine/Phases.antt =====
-- signing_engine.py: prepare_pdf_for_signing, finalize_signed_pdf and save_signed_pdf.
use frappe_dsc.Base.{
  ℕ, zero, suc, ◌+◌, String, ◌<>◌, ◌==◌, ◌&&◌, true, Option, none, some, List, [], ◌∷◌, ◌++◌, eqb,
  or_text, rows_where, if◌then◌else◌,
}
use frappe_dsc.Site.{
  Profile, SignatureTemplate, File, Session, Db, Error, ok, Action, pure, lift, gets, modify,
  or_raise, ◌>>=◌, ◌>>◌, Platform, Context, Digest, StoredFile,
}
use frappe_dsc.Engine.Sessions.{store_session, pop_session}
use frappe_dsc.Engine.Placing.{Placement, signature_spot}
use frappe_dsc.Engine.Stamp.{signer_name}

-- What prepare_pdf_for_signing returns.
pub record Prepared : Type 0 where
  pub session_id : String
  pub hash_to_sign : String
  pub hash_algorithm : String
  pub expected_cert_fingerprint : String

-- The arguments of prepare_pdf_for_signing.
pub record PrepareRequest : Type 0 where
  pub doctype : String
  pub docname : String
  pub print_format : Option String
  pub template : SignatureTemplate
  pub profile : Profile
  pub signing_request_name : String
  pub cert_der : String
  pub signer_location_text : Option String
  pub pdf_bytes : Option String
  pub placement : Option Placement

-- What finalize_signed_pdf returns.
pub record SignedPdf : Type 0 where
  pub signed_pdf_bytes : String
  pub file_name : String
  pub doctype : String
  pub docname : String
  pub signing_request_name : String
  pub certificate_fingerprint : String

module _ (P : Platform) where
  -- generate_pdf_from_print_format, unless there are bytes already.
  unfoldable pub pdf_to_sign : PrepareRequest → Action String
  pdf_to_sign q s = elim q.pdf_bytes [
    | some bytes ↦ (ok bytes, s)
    | none ↦ (P.render_pdf s.db q.doctype q.docname (or_text q.print_format ""), s)
  ]

module _ (P : Platform) (ctx : Context) where
  abbrev pub session_of : PrepareRequest → String → Digest → String → Session
  session_of q hash_algorithm digest signed_attrs = record {
    hash_algorithm = hash_algorithm;
    field_name = "DSC_Signature_" <> q.signing_request_name;
    signing_request_name = q.signing_request_name;
    doctype = q.doctype;
    docname = q.docname;
    print_format = q.print_format;
    created_at = ctx.now;
    prepared_pdf = digest.prepared_pdf;
    signed_attrs = signed_attrs;
    cert_der = q.cert_der;
    document_digest = digest.document_digest;
    reserved_region_start = digest.reserved_region_start;
    reserved_region_end = digest.reserved_region_end;
  }

  unfoldable pub prepare_pdf_for_signing : PrepareRequest → Action Prepared
  unfolding pdf_to_sign signature_spot signer_name
  prepare_pdf_for_signing q = do
    pdf ← pdf_to_sign P q
    spot ← signature_spot P pdf q.placement q.template
    settings ← gets (λ d. d.settings)
    let hash_algorithm = or_text settings.default_hash_algorithm "sha256"
    lift (P.load_certificate q.cert_der)
    digest ← lift (
        P.digest_pdf (record {
          pdf = pdf;
          field_name = "DSC_Signature_" <> q.signing_request_name;
          page = spot.page;
          box = spot.box;
          hash_algorithm = hash_algorithm;
          location = or_text q.signer_location_text (or_text settings.default_location "");
          reason = or_text settings.default_reason "Approved";
          signer_name = signer_name q.profile;
          cert_der = q.cert_der;
        }))
    let signed_attrs = P.signed_attrs ctx.now digest.document_digest
    store_session ctx ctx.uuid (session_of q hash_algorithm digest signed_attrs)
    pure (record {
      session_id = ctx.uuid;
      hash_to_sign = P.sha256 signed_attrs;
      hash_algorithm = hash_algorithm;
      expected_cert_fingerprint = P.sha256 q.cert_der;
    })

module _ (P : Platform) where
  -- The intermediate certificates, decoded and loaded one after the other.
  unfoldable pub load_chain : List String → Action (List String)
  load_chain [] = pure []
  load_chain (c ∷ rest) = do
    der ← lift (P.b64decode c)
    lift (P.load_certificate der)
    ders ← load_chain rest
    pure (der ∷ ders)

  count_files : List File → ℕ
  count_files [] = zero
  count_files (f ∷ rest) = suc (count_files rest)

  -- `{docname}_signed_v{n}.pdf`
  abbrev pub version_name : String → ℕ → String
  version_name docname n = docname <> "_signed_v" <> P.decimal n <> ".pdf"

  existing_versions : String → String → Db → ℕ
  unfolding count_files rows_where
  existing_versions doctype docname d = count_files (
      rows_where
        (λ f.
          f.attached_to_doctype == doctype
          && f.attached_to_name == docname
          && P.like (docname <> "_signed_v%.pdf") f.file_name)
        d.files)

  unfoldable pub next_file_name : String → String → Db → String
  unfolding existing_versions
  next_file_name doctype docname d =
      let n = existing_versions doctype docname d in
      if eqb n 0 then docname <> "_signed_v1.pdf" else version_name docname (n + 1)

module _ (P : Platform) (ctx : Context) where
  unfoldable pub finalize_signed_pdf : String → String → List String → Action SignedPdf
  unfolding pop_session load_chain next_file_name
  finalize_signed_pdf session_id signature_bytes_b64 chain = do
    found ← pop_session ctx session_id
    session ← or_raise found Error.session_expired
    signature ← lift (P.b64decode signature_bytes_b64)
    lift (P.load_certificate session.cert_der)
    certs ← load_chain P chain
    cms ← lift (P.build_cms session.cert_der certs session.signed_attrs signature)
    signed ← lift (
        P.fill_with_cms
          (record {
            prepared_pdf = session.prepared_pdf;
            document_digest = session.document_digest;
            reserved_region_start = session.reserved_region_start;
            reserved_region_end = session.reserved_region_end;
          })
          cms)
    file_name ← gets (next_file_name P session.doctype session.docname)
    pure (record {
      signed_pdf_bytes = signed;
      file_name = file_name;
      doctype = session.doctype;
      docname = session.docname;
      signing_request_name = session.signing_request_name;
      certificate_fingerprint = P.sha256 session.cert_der;
    })

  -- The File row, which is marked as signed if the custom field is installed.
  abbrev pub signed_file_row : SignedPdf → StoredFile → File
  signed_file_row r stored = record {
    name = stored.name;
    file_name = stored.file_name;
    file_url = stored.file_url;
    attached_to_doctype = r.doctype;
    attached_to_name = r.docname;
    content = r.signed_pdf_bytes;
    is_private = true;
    is_dsc_signed = P.has_signed_field;
  }

  abbrev pub choose_names : SignedPdf → Action StoredFile
  choose_names r s = (P.store_file s.db r.file_name r.signed_pdf_bytes, s)

  unfoldable pub save_signed_pdf : SignedPdf → Action File
  save_signed_pdf r = do
    stored ← choose_names r
    modify λ d. record d { files = d.files ++ signed_file_row r stored ∷ [] }
    pure (signed_file_row r stored)
