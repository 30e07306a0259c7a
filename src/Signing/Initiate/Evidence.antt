-- ===== src/Signing/Initiate/Evidence.antt =====
-- api/signing.py, initiate: what is stored, logged and answered.
use frappe_dsc.Base.{
  String, ◌<>◌, Bool, Option, none, some, or_num, or_text, truthy, take_text, if◌then◌else◌,
}
use frappe_dsc.Site.{
  Status, SigningRequest, Profile, Settings, Geocode, no_details, detail, Json, opt_json, Result,
  ok, err, Action, Done, pure, ◌>>◌, Platform, Context, set_request, log_event,
}
use frappe_dsc.Engine.{Prepared}
use frappe_dsc.Signing.Initiate.Calls.{InitiateCall, InitiateReply, normalise}

float_or_none : Platform → Option String → Result (Option String)
float_or_none P none = ok none
float_or_none P (some t) = elim (P.to_float t) [ ok f ↦ ok (some f) | err e ↦ err e ]

-- The position that is stored with the request.
pub record Position : Type 0 where
  pub lat : Option String
  pub lng : Option String
  pub accuracy : Option String

abbrev pub with_location : Position → Option Geocode → SigningRequest → SigningRequest
with_location p none r = r
with_location p (some g) r = record r {
  signer_lat = p.lat;
  signer_lng = p.lng;
  signer_accuracy_m = p.accuracy;
  signer_address = some g.address;
  signer_location_provider = some g.provider;
}

abbrev pub address_of : Option Geocode → Option String
address_of none = none
address_of (some g) = some g.address

module _ (P : Platform) where
  unfoldable pub read_position : InitiateCall → Bool → Result Position
  unfolding float_or_none
  read_position call located =
      if located
      then elim (float_or_none P (normalise call.signer_lat)) [
        | err e ↦ err e
        | ok lat ↦ elim (float_or_none P (normalise call.signer_lng)) [
          | err e ↦ err e
          | ok lng ↦ elim (float_or_none P (normalise call.signer_accuracy_m)) [
            | err e ↦ err e
            | ok accuracy ↦ ok (record { lat = lat; lng = lng; accuracy = accuracy })
          ]
        ]
      ]
      else ok (record { lat = none; lng = none; accuracy = none })

module _ (P : Platform) (ctx : Context) where
  -- The request goes In Progress, with where the call came from.
  abbrev pub in_progress_row : Position → Option Geocode → SigningRequest → SigningRequest
  in_progress_row p g r = with_location p g (record r {
    status = Status.in_progress;
    client_ip = ctx.request_ip;
    client_user_agent = ctx.user_agent;
  })

  unfoldable pub log_location : String → Position → Option Geocode → Action Done
  log_location name p none = pure tt
  log_location name p (some g) = log_event P ctx name "Signer Location Captured" (
      some (
        detail "lat" (opt_json p.lat) (
          detail "lng" (opt_json p.lng) (
            detail "accuracy_m" (opt_json p.accuracy) (
              detail "address" (Json.str g.address) (
                detail "provider" (Json.str g.provider)
                  (detail "geocode_ok" (Json.bool g.is_ok) no_details)))))))

  -- The hash is stored, and the events are logged.
  unfoldable pub record_hash :
      String → Settings → Prepared → Position → Option Geocode → Action Done
  unfolding log_location
  record_hash name settings result p g = do
    set_request ctx name λ r. record r {
      hash_algorithm = some result.hash_algorithm;
      hash_to_be_signed = some result.hash_to_sign;
    }
    log_location name p g
    log_event P ctx name "Hash Computed" (
        some (
          detail "algorithm" (Json.str result.hash_algorithm) (
            detail "hash_preview" (Json.str (take_text 16 result.hash_to_sign <> "..."))
              no_details)))
    log_event P ctx name "Agent Called" (
        some (
          detail "agent_port" (Json.num (or_num settings.agent_listen_port 4645))
            (detail "hash_algorithm" (Json.str result.hash_algorithm) no_details)))

  -- What the HMAC covers, the same text that the bridge computes it over.
  unfoldable pub mac_payload : Prepared → String
  mac_payload result =
      result.session_id
      <> "|"
      <> result.hash_to_sign
      <> "|"
      <> result.hash_algorithm
      <> "|"
      <> P.decimal ctx.unix_time
      <> "|"
      <> ctx.nonce

  abbrev pub initiate_reply :
      String → Profile → Settings → Option Geocode → Prepared → String → InitiateReply
  initiate_reply name profile settings g result secret = record {
    session_id = result.session_id;
    hash_to_sign = result.hash_to_sign;
    hash_algorithm = result.hash_algorithm;
    expected_cert_fingerprint = profile.certificate_fingerprint;
    signing_request = name;
    timestamp = ctx.unix_time;
    nonce = ctx.nonce;
    hmac = P.hmac_sha256 secret (mac_payload result);
    signer_name =
        if truthy profile.certificate_common_name
        then profile.certificate_common_name
        else profile.label;
    reason = or_text settings.default_reason "Approved";
    location = or_text (address_of g) (or_text settings.default_location "");
  }
