-- ===== src/Signing/Initiate/Authority.antt =====
-- api/signing.py, initiate: what a caller to whom a hash is given has passed.
use frappe_dsc.Base.{
  String, ◌<>◌, ◌==◌, ◌≡◌, refl, sym, ap, ◌∙◌, true, false, not, ◌&&◌, Option, none, some, arith,
  ◌⊎◌, inl, inr, truthy, get_or, is_text, find_row, is_some,
}
use frappe_dsc.Site.{
  Site, Profile, Settings, Geocode, Result, ok, err, Error, pure, raise_if, or_raise, Platform,
  Context, get_profile,
}
use frappe_dsc.Site.Inversion.{went_through, or_raise-returns, raise_if-returns}
use frappe_dsc.Engine.{Prepared, prepare_pdf_for_signing}
use frappe_dsc.Signing.Hooks.{run_dev_hooks}
use frappe_dsc.Secrets.{get_or_create_hmac_secret}
use frappe_dsc.Signing.Initiate.{
  InitiateCall, InitiateReply, PendingRequest, normalise, pending_request, is_expired, is_shut_out,
  check_signer, check_location, check_certificate, start_signing, load_template, uploaded_pdf,
  read_position, mac_payload, initiate_reply, record_hash, initiate,
}

-- The HMAC of the reply is over its session, hash, algorithm, time and nonce, under the secret that
-- the settings hold.
abbrev pub IsMacOf : Platform → Site → InitiateReply → Type 0
IsMacOf P t reply =
    reply.hmac
    ≡ P.hmac_sha256 (get_or t.db.settings.hmac_secret "") (
        reply.session_id
        <> "|"
        <> reply.hash_to_sign
        <> "|"
        <> reply.hash_algorithm
        <> "|"
        <> P.decimal reply.timestamp
        <> "|"
        <> reply.nonce)

module _ (P : Platform) (ctx : Context) where
  -- The caller is the expected signer, if there is one, or may write signing requests.
  abbrev pub IsAuthorised : PendingRequest → Type 0
  IsAuthorised r =
      (truthy r.expected_signer_user
        && not (is_text r.expected_signer_user ctx.user)
        && not (P.has_permission ctx.user "DSC Signing Request" none "write"))
      ≡ false

  -- The profile is active, lists the caller if it lists anyone, and has not expired.
  abbrev pub Serves : Profile → Type 0
  Serves p =
      (p.is_active ≡ true)
      × (is_shut_out p ctx.user ≡ false)
      × (is_expired ctx.now p.certificate_not_after ≡ false)

  -- The certificate is the one of the profile, if it names one.
  abbrev pub IsPaired : Profile → Result String → Type 0
  IsPaired p (ok der) =
      (truthy p.certificate_fingerprint
        && not (P.sha256 der == get_or p.certificate_fingerprint ""))
      ≡ false
  IsPaired p (err e) = ⊥

  -- The position of the caller is known, if the settings require it.
  abbrev pub IsLocated : InitiateCall → Settings → Type 0
  IsLocated call settings =
      (settings.enforce_signer_location
        && not (is_some (normalise call.signer_lat) && is_some (normalise call.signer_lng)))
      ≡ false

  check_location-returns :
      (call : InitiateCall) (s : Site) {g : Option Geocode} {t : Site}
      → check_location P ctx (normalise call.signer_lat) (normalise call.signer_lng) s ≡ (ok g, t)
      → IsLocated call s.db.settings
  unfolding check_location
  check_location-returns call s h = ground arith

  get_profile-returns :
      (name : Option String) (s : Site) {p : Profile} {t : Site}
      → get_profile name s ≡ (ok p, t)
      → find_row (λ q. q.name) (get_or name "") s.db.profiles ≡ some p
  get_profile-returns name s h = (or_raise-returns _ _ s h).0

  check_signer-stays :
      (r : PendingRequest) (s : Site) {p : Profile} {t : Site}
      → check_signer P ctx r s ≡ (ok p, t)
      → t ≡ s
  unfolding check_signer
  check_signer-stays r s {p} {t} h = ground arith

  check_signer-returns :
      (r : PendingRequest) (s : Site) {p : Profile} {t : Site}
      → check_signer P ctx r s ≡ (ok p, t)
      → IsAuthorised r
        × Serves p
        × (find_row (λ q. q.name) (get_or r.profile "") s.db.profiles ≡ some p)
  unfolding check_signer
  check_signer-returns r s {p} {t} h = ground arith

  check_certificate-returns :
      (p : Profile) (cert : String) (s : Site) {der : String} {t : Site}
      → check_certificate P ctx p cert s ≡ (ok der, t)
      → IsPaired p (P.b64decode cert)
  unfolding check_certificate
  check_certificate-returns p cert s h = elim (cases (P.b64decode cert)) [
    | inl (e, bad) ↦ absurd (ground arith)
    | inr (der, good) ↦ rw good (ground arith)
  ]
    where
      cases : (r : Result String) → ((e : Error) × (r ≡ err e)) ⊎ ((a : String) × (r ≡ ok a))
      cases (ok a) = inr (a, refl)
      cases (err e) = inl (e, refl)

  secret-returns :
      (s : Site) {k : String} {t : Site}
      → get_or_create_hmac_secret ctx s ≡ (ok k, t)
      → (get_or t.db.settings.hmac_secret "" ≡ k)
  unfolding get_or_create_hmac_secret
  secret-returns s h = ground arith

  start_signing-returns :
      (call : InitiateCall) (cert : String) (r : PendingRequest) (p : Profile) (settings : Settings)
      (g : Option Geocode) (s : Site) {reply : InitiateReply} {t : Site}
      → start_signing P ctx call cert r p settings g s ≡ (ok reply, t)
      → IsPaired p (P.b64decode cert) × (reply.signing_request ≡ r.name) × IsMacOf P t reply
  unfolding start_signing mac_payload
  start_signing-returns call cert r p settings g s h =
      went_through (load_template r.signature_template s) h λ template s1 e1 h1.
        went_through (uploaded_pdf call.doctype call.docname s1) h1 λ uploaded s2 e2 h2.
          went_through (read_position P call (is_some g), s2) h2
            λ position s3 e3 h3.
              went_through (run_dev_hooks P "dsc_before_sign" _ _) h3 λ _ s4 e4 h4.
                went_through (check_certificate P ctx p cert s4) h4 λ der s5 e5 h5.
                  went_through (prepare_pdf_for_signing P ctx _ s5) h5 λ result s6 e6 h6.
                    went_through (record_hash P ctx r.name settings result position g s6) h6
                      λ _ s7 e7 h7.
                        went_through (get_or_create_hmac_secret ctx s7) h7 λ secret s8 e8 h8.
                          let (about, signed) =
                            signed_reply result secret h8 (secret-returns s7 e8) in
                          (check_certificate-returns p cert s4 e5, about, signed)
    where
      signed_reply :
          (result : Prepared) (secret : String) {u : Site} {reply : InitiateReply} {t : Site}
          → pure (initiate_reply P ctx r.name p settings g result secret) u ≡ (ok reply, t)
          → get_or u.db.settings.hmac_secret "" ≡ secret
          → (reply.signing_request ≡ r.name) × IsMacOf P t reply
      signed_reply result secret h e = ground arith

  -- What is known of a reply: the request that was pending, and its profile.
  abbrev pub IsGuarded : InitiateCall → Site → InitiateReply → Site → Type 0
  IsGuarded call s reply t =
      (r : PendingRequest) × (p : Profile) × (pending_request call.doctype call.docname s.db
        ≡ some r)
      × (find_row (λ q. q.name) (get_or r.profile "") s.db.profiles ≡ some p)
      × IsAuthorised r
      × Serves p
      × IsLocated call s.db.settings
      × IsPaired p (P.b64decode (get_or call.cert_der_b64 ""))
      × (reply.signing_request ≡ r.name)
      × IsMacOf P t reply

  -- A caller who is given a hash to sign has passed every guard: there was a pending request, the
  -- caller is its expected signer or may write signing requests, if it has an expected signer, its
  -- profile is active, admits the caller if it lists anyone, and has not expired, the position is
  -- given if it has to be, and the certificate is the one that the profile names, if it names one;
  -- and the reply is about that request and carries a MAC under the secret of the settings.
  pub initiate-IsGuarded :
      (call : InitiateCall) (s : Site) {reply : InitiateReply} {t : Site}
      → initiate P ctx call s ≡ (ok reply, t)
      → IsGuarded call s reply t
  unfolding initiate
  initiate-IsGuarded call s h =
      went_through (raise_if (not (truthy call.cert_der_b64)) Error.certificate_required s) h
        λ _ s0 e0 h0.
          went_through (or_raise (pending_request call.doctype call.docname s0.db) _ s0) h0
            λ r s1 e1 h1. went_through (check_signer P ctx r s1) h1 λ p s2 e2 h2.
              went_through (check_location P ctx _ _ s2) h2 λ g s3 e3 h3.
                let from_start : s0 ≡ s = (raise_if-returns _ _ s e0).1 in
                let (found, same) =
                  or_raise-returns (pending_request call.doctype call.docname s0.db) _ s0 e1 in
                let (authorised, serves, profile) = check_signer-returns r s1 e2 in
                let located =
                  ap
                    (λ z.
                      z.db.settings.enforce_signer_location
                      && not (
                          is_some (normalise call.signer_lat)
                          && is_some (normalise call.signer_lng)))
                    (sym (check_signer-stays r s1 e2 ∙ same ∙ from_start))
                  ∙ check_location-returns call s2 e3 in
                let (paired, about, signed) =
                  start_signing-returns call _ r p s2.db.settings g s3 h3 in
                (
                  r,
                  p,
                  sym (ap (λ z. pending_request call.doctype call.docname z.db) from_start) ∙ found,
                  sym (
                        ap (λ z. find_row (λ q. q.name) (get_or r.profile "") z.db.profiles)
                          (same ∙ from_start))
                      ∙ profile,
                  authorised,
                  serves,
                  located,
                  paired,
                  about,
                  signed,
                )
