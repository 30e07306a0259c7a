-- ===== src/System/Keeping/Guards.antt =====
-- geocoding.py, the HMAC secret and the guards of initiate: what they keep.
use frappe_dsc.Base.{
  String, ◌&&◌, not, Option, some, none, get_or, or_text, truthy, is_some, same_lower,
  if◌then◌else◌, is_text,
}
use frappe_dsc.Site.{
  Profile, Settings, Geocode, Error, Result, ok, err, Action, pure, lift, when, raise_if,
  try_except, ◌>>◌, cached, Platform, Context, get_profile, log_error,
}
use frappe_dsc.Geocoding.{
  cache_key, fallback, ask_provider, or_ask, remember, geocode_numbers, numbers_or_fallback,
  reverse_geocode, google, nominatim,
}
use frappe_dsc.Secrets.{create_hmac_secret, get_or_create_hmac_secret}
use frappe_dsc.Signing.Initiate.{
  PendingRequest, check_signer, check_location, check_certificate, is_shut_out, is_expired,
}
use frappe_dsc.System.Keeping.{Baseline, Keeps, after, tried, branches, when-Keeps, or_raise-Keeps}

module _ (P : Platform) (base : Baseline) (ctx : Context) where
  google-Keeps : (settings : Settings) (lat lng : String) → Keeps P base (google P settings lat lng)
  unfolding google
  google-Keeps settings lat lng =
      branches (truthy settings.geocoding_api_key) _ (pure (fallback (some lat) (some lng)))
        (λ s h.
          after (lift (P.google lat lng (get_or settings.geocoding_api_key "")) s) _ h
            λ answer s1 h1. h1)
        (λ s h. h)

  nominatim-Keeps : (lat lng : String) → Keeps P base (nominatim P lat lng)
  unfolding nominatim
  nominatim-Keeps lat lng s h = after (lift (P.nominatim lat lng) s) _ h λ answer s1 h1. h1

  ask_provider-Keeps : (lat lng : String) → Keeps P base (ask_provider P ctx lat lng)
  unfolding ask_provider
  ask_provider-Keeps lat lng s h =
      let settings = s.db.settings in
      let provider = or_text settings.geocoding_provider "nominatim" in
      let ask =
        if same_lower provider "google" then google P settings lat lng else nominatim P lat lng in
      let fall : Error → Action Geocode =
        λ e. log_error "DSC reverse_geocode failed" >> pure (fallback (some lat) (some lng)) in
      after (try_except ask fall s) _
        (tried (ask s) fall
          (branches (same_lower provider "google") (google P settings lat lng) (nominatim P lat lng)
            (google-Keeps settings lat lng) (nominatim-Keeps lat lng) s h)
          (λ e s1 h1. record { running = h1.running; committed = h1.committed }))
        λ result s2 h2.
          after (when result.is_ok (remember P ctx (cache_key P lat lng) result) s2) _
            (when-Keeps result.is_ok (remember P ctx (cache_key P lat lng) result)
              (λ s3 h3. record { running = h3.running; committed = h3.committed }) s2 h2)
            λ _ s4 h4. h4

  or_ask-Keeps :
      (lat lng : String) (found : Option Geocode) → Keeps P base (or_ask P ctx lat lng found)
  unfolding or_ask
  or_ask-Keeps lat lng none s h = ask_provider-Keeps lat lng s h
  or_ask-Keeps lat lng (some g) s h = h

  numbers-Keeps :
      (lat lng : String) (x y : Result String)
      → Keeps P base (numbers_or_fallback P ctx lat lng x y)
  unfolding numbers_or_fallback geocode_numbers
  numbers-Keeps lat lng (ok x) (ok y) s h =
      or_ask-Keeps x y (cached ctx (cache_key P x y) s.geocodes) s h
  numbers-Keeps lat lng (ok x) (err e) s h = h
  numbers-Keeps lat lng (err e) (ok y) s h = h
  numbers-Keeps lat lng (err e) (err e') s h = h

  reverse_geocode-Keeps : (lat lng : Option String) → Keeps P base (reverse_geocode P ctx lat lng)
  unfolding reverse_geocode
  reverse_geocode-Keeps (some lat) (some lng) s h =
      numbers-Keeps lat lng (P.to_float lat) (P.to_float lng) s h
  reverse_geocode-Keeps (some lat) none s h = h
  reverse_geocode-Keeps none (some lng) s h = h
  reverse_geocode-Keeps none none s h = h

  pub get_or_create_hmac_secret-Keeps : Keeps P base (get_or_create_hmac_secret ctx)
  unfolding get_or_create_hmac_secret create_hmac_secret
  get_or_create_hmac_secret-Keeps s h =
      branches (truthy s.db.settings.hmac_secret) (pure (get_or s.db.settings.hmac_secret ""))
        (create_hmac_secret ctx) (λ s1 h1. h1)
        (λ s1 h1. record { running = h1.running; committed = h1.running }) s h

  pub check_signer-Keeps : (r : PendingRequest) → Keeps P base (check_signer P ctx r)
  unfolding check_signer
  check_signer-Keeps r s h =
      after
        (raise_if
          (truthy r.expected_signer_user
            && not (is_text r.expected_signer_user ctx.user)
            && not (P.has_permission ctx.user "DSC Signing Request" none "write"))
          Error.not_authorized s)
        _ h
        λ _ s1 h1. after (get_profile r.profile s1) _ (or_raise-Keeps _ _ s1 h1) λ p s2 h2.
          after (raise_if (not p.is_active) (Error.profile_not_active p.profile_name) s2) _ h2
            λ _ s3 h3.
              after
                (raise_if (is_shut_out p ctx.user) (Error.not_an_allowed_user p.profile_name) s3) _
                h3
                λ _ s4 h4.
                  after
                    (raise_if (is_expired ctx.now p.certificate_not_after)
                      (Error.certificate_expired p.profile_name) s4)
                    _ h4 λ _ s5 h5. h5

  pub check_location-Keeps : (lat lng : Option String) → Keeps P base (check_location P ctx lat lng)
  unfolding check_location
  check_location-Keeps lat lng s h =
      after
        (raise_if (s.db.settings.enforce_signer_location && not (is_some lat && is_some lng))
          Error.location_required s)
        _ h
        λ _ s1 h1.
          branches (is_some lat && is_some lng) _ (pure none)
            (λ s2 h2.
              after (reverse_geocode P ctx lat lng s2) _ (reverse_geocode-Keeps lat lng s2 h2)
                λ g s3 h3. h3)
            (λ s2 h2. h2) s1 h1

  pub check_certificate-Keeps :
      (p : Profile) (cert : String) → Keeps P base (check_certificate P ctx p cert)
  unfolding check_certificate
  check_certificate-Keeps p cert s h =
      after (lift (P.b64decode cert) s) _ h λ der s1 h1. after (raise_if _ _ s1) _ h1 λ _ s2 h2. h2
