-- ===== src/Geocoding.antt =====
-- geocoding.py: reverse_geocode, its providers and its cache.
pub mod Caching
use frappe_dsc.Base.{
  ℕ, ◌+◌, String, ◌<>◌, true, false, Option, none, some, List, ◌∷◌, truthy, or_text, same_lower,
  if◌then◌else◌, get_or,
}
use frappe_dsc.Site.{
  Cached, Geocode, Settings, Result, ok, Action, Done, pure, gets, lift, when, ◌>>=◌, ◌>>◌,
  try_except, Platform, Context, log_error, cached,
}

abbrev pub geocode_ttl_seconds : ℕ
geocode_ttl_seconds = 86400

-- `_fallback`, for coordinates of which one may be missing.
unfoldable pub fallback : Option String → Option String → Geocode
fallback (some lat) (some lng) = record {
  address = lat <> "," <> lng;
  provider = "fallback";
  is_ok = false;
}
fallback _ _ = record { address = ""; provider = "fallback"; is_ok = false }

module _ (P : Platform) where
  unfoldable pub cache_key : String → String → String
  cache_key lat lng = "e_sign:geocode:" <> P.round4 lat <> ":" <> P.round4 lng

  nominatim_answer : String → String → Option String → Geocode
  unfolding fallback
  nominatim_answer lat lng address =
      if truthy address
      then record { address = get_or address ""; provider = "nominatim"; is_ok = true }
      else fallback (some lat) (some lng)

  unfoldable pub nominatim : String → String → Action Geocode
  unfolding nominatim_answer
  nominatim lat lng = do answer ← lift (P.nominatim lat lng); pure (nominatim_answer lat lng answer)

  google_answer : String → String → Option (Option String) → Geocode
  unfolding fallback
  google_answer lat lng none = fallback (some lat) (some lng)
  google_answer lat lng (some address) = record {
    address = or_text address (lat <> "," <> lng);
    provider = "google";
    is_ok = true;
  }

  unfoldable pub google : Settings → String → String → Action Geocode
  unfolding google_answer fallback
  google settings lat lng =
      if truthy settings.geocoding_api_key
      then (do
        answer ← lift (P.google lat lng (get_or settings.geocoding_api_key ""))
        pure (google_answer lat lng answer))
      else pure (fallback (some lat) (some lng))

module _ (P : Platform) (ctx : Context) where
  abbrev pub remember : String → Geocode → Action Done
  remember key result s = (
    ok tt,
    record s {
      geocodes =
          record { key = key; value = result; expires = ctx.now + geocode_ttl_seconds }
          ∷ s.geocodes;
    },
  )

  -- reverse_geocode behind the cache, for coordinates that are numbers.
  unfoldable pub ask_provider : String → String → Action Geocode
  unfolding cache_key google nominatim fallback
  ask_provider lat lng = do
    settings ← gets (λ d. d.settings)
    let provider = or_text settings.geocoding_provider "nominatim"
    result ←
        try_except
          (if same_lower provider "google" then google P settings lat lng else nominatim P lat lng)
          (λ e. log_error "DSC reverse_geocode failed" >> pure (fallback (some lat) (some lng)))
    when result.is_ok (remember (cache_key P lat lng) result)
    pure result

  unfoldable pub or_ask : String → String → Option Geocode → Action Geocode
  unfolding ask_provider
  or_ask lat lng (some result) = pure result
  or_ask lat lng none = ask_provider lat lng

  abbrev pub geocode_cache : Action (List (Cached Geocode))
  geocode_cache s = (ok s.geocodes, s)

  unfoldable pub geocode_numbers : String → String → Action Geocode
  unfolding cached or_ask
  geocode_numbers lat lng = do
    cache ← geocode_cache
    or_ask lat lng (cached ctx (cache_key P lat lng) cache)

  unfoldable pub numbers_or_fallback :
      String → String → Result String → Result String → Action Geocode
  unfolding geocode_numbers fallback
  numbers_or_fallback lat lng (ok lat_f) (ok lng_f) = geocode_numbers lat_f lng_f
  numbers_or_fallback lat lng _ _ = pure (fallback (some lat) (some lng))

  unfoldable pub reverse_geocode : Option String → Option String → Action Geocode
  unfolding numbers_or_fallback fallback
  reverse_geocode (some lat) (some lng) =
      numbers_or_fallback lat lng (P.to_float lat) (P.to_float lng)
  reverse_geocode lat lng = pure (fallback lat lng)
