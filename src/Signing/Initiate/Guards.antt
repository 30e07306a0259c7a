-- ===== src/Signing/Initiate/Guards.antt =====
-- api/signing.py, initiate: what stands between a caller and a signature.
use frappe_dsc.Base.{
  ℕ, ◌/◌, String, ◌==◌, Bool, false, not, ◌&&◌, Option, none, some, List, [], ◌∷◌, ltb, truthy,
  get_or, is_some, is_text, contains, if◌then◌else◌,
}
use frappe_dsc.Site.{
  Profile, Geocode, Error, Action, pure, lift, gets, raise_if, ◌>>=◌, ◌>>◌, Platform, Context,
  get_profile,
}
use frappe_dsc.Geocoding.{reverse_geocode}
use frappe_dsc.Signing.Initiate.Calls.{PendingRequest}

abbrev pub seconds_per_day : ℕ
seconds_per_day = 86400

-- `getdate(not_after) < getdate(now)`
unfoldable pub is_expired : ℕ → Option ℕ → Bool
is_expired now none = false
is_expired now (some t) = ltb (t / seconds_per_day) (now / seconds_per_day)

some_users : List String → List String
some_users [] = []
some_users (u ∷ rest) = if u == "" then some_users rest else u ∷ some_users rest

outside : List String → String → Bool
outside [] user = false
outside (u ∷ rest) user = not (contains (u ∷ rest) user)

-- `allowed and user not in allowed`
unfoldable pub is_shut_out : Profile → String → Bool
unfolding some_users outside
is_shut_out p user = outside (some_users p.allowed_users) user

module _ (P : Platform) (ctx : Context) where
  -- The guards between finding the request and touching anything.
  unfoldable pub check_signer : PendingRequest → Action Profile
  unfolding is_shut_out is_expired
  check_signer r = do
    raise_if
        (truthy r.expected_signer_user
          && not (is_text r.expected_signer_user ctx.user)
          && not (P.has_permission ctx.user "DSC Signing Request" none "write"))
        Error.not_authorized
    profile ← get_profile r.profile
    raise_if (not profile.is_active) (Error.profile_not_active profile.profile_name)
    raise_if (is_shut_out profile ctx.user) (Error.not_an_allowed_user profile.profile_name)
    raise_if (is_expired ctx.now profile.certificate_not_after)
        (Error.certificate_expired profile.profile_name)
    pure profile

  -- The location that the settings may require, resolved to an address.
  unfoldable pub check_location : Option String → Option String → Action (Option Geocode)
  unfolding reverse_geocode
  check_location lat lng = do
    settings ← gets (λ d. d.settings)
    raise_if (settings.enforce_signer_location && not (is_some lat && is_some lng))
        Error.location_required
    if is_some lat && is_some lng
        then (do g ← reverse_geocode P ctx lat lng; pure (some g))
        else pure none

  -- The certificate of the token, which must be the one that the profile names.
  unfoldable pub check_certificate : Profile → String → Action String
  check_certificate profile cert_der_b64 = do
    cert_der ← lift (P.b64decode cert_der_b64)
    raise_if
        (truthy profile.certificate_fingerprint
          && not (P.sha256 cert_der == get_or profile.certificate_fingerprint ""))
        (Error.certificate_mismatch profile.name (get_or profile.certificate_fingerprint "")
          (P.sha256 cert_der))
    pure cert_der
