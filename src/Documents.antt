-- ===== src/Documents.antt =====
-- doctype/dsc_document_sign/dsc_document_sign.py and doctype/dsc_profile/dsc_profile.py.
pub mod Opening
use frappe_dsc.Base.{
  String, ◌==◌, Bool, true, false, not, ◌&&◌, ◌||◌, Option, none, some, List, [], ◌∷◌, ◌++◌, eqb,
  truthy, get_or, contains, or_else, first_where, find_row, if◌then◌else◌,
}
use frappe_dsc.Site.{
  Status, DocumentStatus, same_status, SigningRequest, DocumentSign, Profile, Error, Action, Done,
  pure, raise, gets, modify, raise_if, when, ◌>>=◌, ◌>>◌, Platform, Context, write_document,
}

-- DSCProfile.validate_unique_users: a user that is listed twice.
unfoldable pub has_repeats : List String → Bool
has_repeats [] = false
has_repeats (u ∷ rest) = if contains rest u then true else has_repeats rest

unfoldable pub validate_unique_users : Profile → Action Done
unfolding has_repeats
validate_unique_users p = raise_if (has_repeats p.allowed_users) Error.duplicate_user

-- The name that the error gives of a profile that is not active.
inactive_profile : String → Option Profile → Option String
inactive_profile name none = none
inactive_profile name (some p) =
    if p.is_active then none else some (if p.profile_name == "" then name else p.profile_name)

refuse_inactive : Option String → Action Done
refuse_inactive none = pure tt
refuse_inactive (some shown) = raise (Error.profile_not_active shown)

-- DSCDocumentSign.validate, for a row whose status is set.
unfoldable pub validate_document : DocumentSign → Action Done
unfolding inactive_profile refuse_inactive
validate_document doc = do
  profiles ← gets (λ d. d.profiles)
  when (truthy doc.profile) (
      let name = get_or doc.profile "" in
      refuse_inactive (inactive_profile name (find_row (λ p. p.name) name profiles)))

abbrev pub is_draft : DocumentStatus → Bool
is_draft DocumentStatus.draft = true
is_draft _ = false

-- A draft with a PDF, a profile and a box that was placed.
unfoldable pub is_ready : DocumentSign → Bool
is_ready doc =
    is_draft doc.status
    && truthy doc.uploaded_pdf
    && truthy doc.profile
    && not (eqb doc.sig_width 0)
    && not (eqb doc.sig_height 0)

-- A request of this record that is not finished.
unfoldable pub is_open_for : String → SigningRequest → Bool
is_open_for name r =
    r.source_doctype == "DSC Document Sign"
    && r.source_name == name
    && (same_status r.status Status.pending || same_status r.status Status.in_progress)

module _ (P : Platform) (ctx : Context) where
  unfoldable pub document_request : String → DocumentSign → SigningRequest
  document_request request doc = record {
    name = request;
    source_doctype = "DSC Document Sign";
    source_name = doc.name;
    rule = none;
    profile = doc.profile;
    signature_template = or_else doc.signature_template none;
    expected_signer_user = some ctx.user;
    actual_signer_user = none;
    status = Status.pending;
    failure_reason = "";
    hash_algorithm = none;
    hash_to_be_signed = none;
    signature_bytes = none;
    certificate_fingerprint_presented = none;
    ocsp_response_b64 = none;
    signed_file = none;
    creation = ctx.now;
    created_on = ctx.now;
    modified = ctx.now;
    signed_on = none;
    cancelled_on = none;
    sign_duration_seconds = none;
    client_ip = none;
    client_user_agent = none;
    signer_lat = none;
    signer_lng = none;
    signer_accuracy_m = none;
    signer_address = none;
    signer_location_provider = none;
  }

  unfoldable pub insert_document_request : DocumentSign → Action Done
  unfolding document_request
  insert_document_request doc = do
    request ← gets (P.new_name "DSC Signing Request")
    modify λ d. record d { requests = d.requests ++ document_request request doc ∷ [] }
    write_document doc.name (λ r. record r { signing_request = some request })
    write_document doc.name (λ r. record r { status = DocumentStatus.pending })

  unfoldable pub once : DocumentSign → Option SigningRequest → Action Done
  unfolding insert_document_request
  once doc none = insert_document_request doc
  once doc (some r) = pure tt

  -- DSCDocumentSign.on_update with _create_signing_request.
  unfoldable pub on_update : DocumentSign → Action Done
  unfolding is_ready is_open_for first_where once
  on_update doc =
      when (is_ready doc)
        (do all ← gets (λ d. d.requests); once doc (first_where (is_open_for doc.name) all))
