-- ===== src/Permissions/Agreement.antt =====
-- permissions.py: the hooks agree with one another.
use frappe_dsc.Base.{String, ◌≡◌, true, false, arith}
use frappe_dsc.Site.{SigningRequest, Profile, Platform}
use frappe_dsc.Permissions.{
  PermissionType, has_role, request_has_permission, query_condition, profile_has_permission,
}

module _ (P : Platform) (user : String) where
  -- A user finds in the list exactly the requests that the user may read one by one.
  pub list_agrees_with_read :
      (r : SigningRequest)
      → query_condition P user r ≡ request_has_permission P r PermissionType.read user
  unfolding query_condition request_has_permission
  list_agrees_with_read r = ground arith

  -- Whoever may write or create a request may read it.
  pub write_implies_read :
      (r : SigningRequest) (ptype : PermissionType)
      → request_has_permission P r ptype user ≡ true
      → request_has_permission P r PermissionType.read user ≡ true
  unfolding request_has_permission
  write_implies_read r PermissionType.read h = h
  write_implies_read r PermissionType.write h = ground arith
  write_implies_read r PermissionType.create h = ground arith
  write_implies_read r PermissionType.other h = cc

  -- A user without the administrators' roles may only read a profile.
  pub profile_read_only :
      (p : Profile) (ptype : PermissionType)
      → has_role P user "DSC Administrator" ≡ false
      → has_role P user "System Manager" ≡ false
      → profile_has_permission P p ptype user ≡ true
      → ptype ≡ PermissionType.read
  unfolding profile_has_permission
  profile_read_only p ptype a m h = ground arith
