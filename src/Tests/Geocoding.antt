-- ===== src/Tests/Geocoding.antt =====
-- The position of a signer on the sample site.
use frappe_dsc.Base.{◌≡◌, refl, true, some, arith}
use frappe_dsc.Site.{Geocode, Site, ok, Platform}
use frappe_dsc.Geocoding.{reverse_geocode}
use frappe_dsc.Geocoding.Caching.{geocode_cached}
use frappe_dsc.Tests.Samples.{platform, signer, signer_later}
use frappe_dsc.Tests.Records.{site}

-- The service knows one street.
abbrev mapped : Platform
mapped = record platform { nominatim = λ lat lng. ok (some "Main Street") }

abbrev street : Geocode
street = record { address = "Main Street"; provider = "nominatim"; is_ok = true }

abbrev asked : Site
asked = (reverse_geocode mapped signer (some "12.9") (some "77.6") site).1

geocode_cached_example :
    reverse_geocode mapped signer_later (some "12.9") (some "77.6") asked ≡ (ok street, asked)
unfolding frappe_dsc.Site.cached reverse_geocode frappe_dsc.Base.same_lower
geocode_cached_example =
    geocode_cached mapped signer "12.9" "77.6" "12.9" "77.6" site refl refl refl refl refl
      signer_later (omega arith)
