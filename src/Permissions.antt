-- ===== src/Permissions.antt =====
-- e_sign/digital_signature/permissions.py and file_protection.py.
pub mod Agreement
use frappe_dsc.Base.{
  rows_where, String, ◌==◌, Bool, true, false, not, ◌&&◌, ◌||◌, List, contains, is_text,
  if◌then◌else◌,
}
use frappe_dsc.Site.{
  get_file, modify, ◌>>=◌, ◌>>◌, SigningRequest, Profile, File, Error, Action, Done, pure, raise_if,
  Platform, Context,
}

-- The permission types that the hooks are asked about, and any other.
pub data PermissionType : Type 0 where
  read write create other : PermissionType

module _ (P : Platform) where
  abbrev pub has_role : String → String → Bool
  has_role user role = contains (P.roles user) role

  -- The request's reader: an administrator, an auditor, or a signer of the request.
  unfoldable pub request_has_permission : SigningRequest → PermissionType → String → Bool
  request_has_permission doc PermissionType.read user =
      if has_role user "DSC Administrator"
      then true
      else if has_role user "DSC Auditor"
      then true
      else if has_role user "System Manager"
      then true
      else is_text doc.expected_signer_user user || is_text doc.actual_signer_user user
  request_has_permission doc PermissionType.write user =
      if has_role user "DSC Administrator"
      then true
      else if has_role user "System Manager"
      then true
      else has_role user "DSC Signer" && is_text doc.expected_signer_user user
  request_has_permission doc PermissionType.create user =
      if has_role user "DSC Administrator"
      then true
      else if has_role user "System Manager"
      then true
      else has_role user "DSC Signer" && is_text doc.expected_signer_user user
  request_has_permission doc PermissionType.other user = false

  -- The rows that the SQL condition of request_query_conditions lets through.
  unfoldable pub query_condition : String → SigningRequest → Bool
  query_condition user row =
      if has_role user "DSC Administrator"
        || has_role user "System Manager"
        || has_role user "DSC Auditor"
      then true
      else is_text row.expected_signer_user user || is_text row.actual_signer_user user

  unfoldable pub profile_has_permission : Profile → PermissionType → String → Bool
  profile_has_permission doc ptype user =
      if has_role user "DSC Administrator"
      then true
      else if has_role user "System Manager"
      then true
      else elim ptype [
        | PermissionType.read ↦ has_role user "DSC Signer" && contains doc.allowed_users user
        | _ ↦ false
      ]

module _ (P : Platform) (ctx : Context) where
  -- before_delete of file_protection.py.
  unfoldable pub before_delete : File → Action Done
  before_delete file =
      raise_if
        (file.is_dsc_signed
          && not (
              has_role P ctx.user "DSC Administrator"
              || has_role P ctx.user "System Manager"
              || has_role P ctx.user "Administrator"))
        Error.file_protected

  -- The deletion of a File.
  unfoldable pub delete_file : String → Action Done
  unfolding before_delete
  delete_file name = do
    file ← get_file name
    before_delete file
    modify λ d. record d { files = rows_where (λ f. not (f.name == name)) d.files }
