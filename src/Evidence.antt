-- ===== src/Evidence.antt =====
-- e_sign/api/evidence.py: export_evidence_pack.
pub mod Completeness
pub mod Readme
use Prim.Native.Char.{code}
use frappe_dsc.Base.{
  String, ◌==◌, Bool, true, false, not, ◌&&◌, Option, none, some, List, [], ◌∷◌, ◌++◌, leb, eqb,
  truthy, get_or, rows_where, if◌then◌else◌,
}
use frappe_dsc.Site.{
  Status, same_status, SigningRequest, Profile, AuditEvent, Db, Error, Result, ok, err, Action,
  pure, gets, raise_if, ◌>>=◌, ◌>>◌, Platform, Context, get_request, get_profile, get_file,
}
use frappe_dsc.Evidence.Readme.{build_readme}
use frappe_dsc.Permissions.{PermissionType, request_has_permission}

-- The files of the archive.
pub data PackEntry : Type 0 where
  signed_pdf : String → String → PackEntry
  audit_trail : SigningRequest → List AuditEvent → PackEntry
  signer_certificate : String → PackEntry
  ocsp_response : String → PackEntry
  readme : String → PackEntry

-- `order_by="occurred_at asc"`
unfoldable pub insert_event : AuditEvent → List AuditEvent → List AuditEvent
insert_event e [] = e ∷ []
insert_event e (f ∷ rest) =
    if leb e.occurred_at f.occurred_at then e ∷ f ∷ rest else f ∷ insert_event e rest

unfoldable pub by_time : List AuditEvent → List AuditEvent
unfolding insert_event
by_time [] = []
by_time (e ∷ rest) = insert_event e (by_time rest)

-- `text.rstrip(".")`
unfoldable pub without_dots : String → String
without_dots String.[] = ""
without_dots (String.◌∷◌ c s) =
    let rest = without_dots s in if rest == "" && eqb (code c) b'.' then "" else String.◌∷◌ c rest

certificate_part : Profile → List PackEntry
certificate_part p =
    if truthy p.certificate_pem_public
    then PackEntry.signer_certificate (get_or p.certificate_pem_public "") ∷ []
    else []

unfoldable pub signed_part : SigningRequest → Action (List PackEntry)
signed_part req =
    if truthy req.signed_file
    then (do
      file ← get_file (get_or req.signed_file "")
      pure (PackEntry.signed_pdf req.source_name file.content ∷ []))
    else pure []

module _ (P : Platform) (ctx : Context) where
  -- `req.check_permission("read")`: the role's permission, and the app's hook.
  unfoldable pub may_read : SigningRequest → Bool
  may_read req =
      P.has_permission ctx.user "DSC Signing Request" (some req.name) "read"
      && request_has_permission P req PermissionType.read ctx.user

  decoded_part : Result String → List PackEntry
  decoded_part (ok der) = PackEntry.ocsp_response der ∷ []
  decoded_part (err e) = []

  ocsp_part : SigningRequest → List PackEntry
  unfolding without_dots decoded_part
  ocsp_part req =
      if truthy req.ocsp_response_b64
      then decoded_part (P.b64decode (without_dots (get_or req.ocsp_response_b64 "")))
      else []

  -- What the archive gets behind the signed file.
  unfoldable pub records_part : SigningRequest → Profile → List AuditEvent → List PackEntry
  unfolding certificate_part ocsp_part
  records_part req profile events =
      PackEntry.audit_trail req events ∷ certificate_part profile
      ++ ocsp_part req
      ++ PackEntry.readme (build_readme P ctx req profile events) ∷ []

  unfoldable pub export_evidence_pack : String → Action (List PackEntry)
  unfolding may_read signed_part by_time records_part
  export_evidence_pack signing_request = do
    req ← get_request signing_request
    raise_if (not (may_read req)) (Error.permission_denied "DSC Signing Request" signing_request)
    raise_if (not (same_status req.status Status.signed)) Error.evidence_not_signed
    signed ← signed_part req
    events ← gets (λ d. by_time (rows_where (λ e. e.request == signing_request) d.audit_events))
    profile ← get_profile req.profile
    pure (signed ++ records_part req profile events)
