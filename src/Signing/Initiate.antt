-- ===== src/Signing/Initiate.antt =====
-- api/signing.py: initiate.
use mathlib.Core.Option
mod Calls
mod Guards
mod Source
mod Evidence
pub mod Authority
pub mod Formats
unfoldable pub use Calls.*
unfoldable pub use Guards.*
unfoldable pub use Source.*
unfoldable pub use Evidence.*
use frappe_dsc.Base.{
  ℕ, ◌/◌, String, ◌<>◌, ◌==◌, starts_with, Bool, true, false, not, ◌&&◌, ◌||◌, Option, none, some,
  List, [], ◌∷◌, ltb, eqb, or_num, or_text, truthy, get_or, is_some, is_text, contains, take_text,
  first_where, rows_where, find_row, if◌then◌else◌,
}
use frappe_dsc.Site.{
  Status, DocumentStatus, same_status, SigningRequest, DocumentSign, Profile, SignatureTemplate,
  Settings, Geocode, Details, no_details, detail, Json, Db, Error, Result, ok, err, Action, Done,
  pure, raise, lift, gets, modify, when, raise_if, or_raise, ◌>>=◌, ◌>>◌, Platform, Context,
  HookCall, get_profile, get_document, get_file_by_url, set_request, write_document, log_event,
}
use frappe_dsc.Geocoding.{reverse_geocode}
use frappe_dsc.Engine.{Placement, Prepared, prepare_pdf_for_signing}
use frappe_dsc.Secrets.{get_or_create_hmac_secret}
use frappe_dsc.Signing.Hooks.{run_dev_hooks}

module _ (P : Platform) (ctx : Context) where
  -- The part of initiate that follows the guards: the request goes In Progress, the PDF is
  -- prepared, the evidence is stored and the reply is signed with the HMAC secret.
  unfoldable pub start_signing :
      InitiateCall
      → String
      → PendingRequest
      → Profile
      → Settings
      → Option Geocode
      → Action InitiateReply
  start_signing call cert r profile settings g = do
    template ← load_template r.signature_template
    uploaded ← uploaded_pdf call.doctype call.docname
    print_format ← gets (print_format_for call.doctype r (is_some uploaded))
    position ← lift (read_position P call (is_some g))
    set_request ctx r.name (in_progress_row P ctx position g)
    run_dev_hooks P "dsc_before_sign" (record {
      signing_request = r.name;
      doctype = call.doctype;
      docname = call.docname;
      profile = r.profile;
      file_url = none;
      reason = none;
    })
    cert_der ← check_certificate P ctx profile cert
    result ← prepare_pdf_for_signing P ctx (record {
      doctype = call.doctype;
      docname = call.docname;
      print_format = print_format;
      template = template;
      profile = profile;
      signing_request_name = r.name;
      cert_der = cert_der;
      signer_location_text = address_of g;
      pdf_bytes = Option.map (λ u. u.0) uploaded;
      placement = Option.map (λ u. u.1) uploaded;
    })
    record_hash P ctx r.name settings result position g
    secret ← get_or_create_hmac_secret ctx
    pure (initiate_reply P ctx r.name profile settings g result secret)

  unfoldable pub initiate : InitiateCall → Action InitiateReply
  unfolding start_signing
  initiate call = do
    raise_if (not (truthy call.cert_der_b64)) Error.certificate_required
    found ← gets (pending_request call.doctype call.docname)
    r ← or_raise found (Error.no_pending_request call.doctype call.docname)
    profile ← check_signer P ctx r
    settings ← gets (λ d. d.settings)
    g ← check_location P ctx (normalise call.signer_lat) (normalise call.signer_lng)
    start_signing call (get_or call.cert_der_b64 "") r profile settings g
