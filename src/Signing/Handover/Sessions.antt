-- ===== src/Signing/Handover/Sessions.antt =====
-- The steps of initiate and finalize, and the signing sessions in the cache.
use frappe_dsc.Base.{
  ◌+◌, ◌<◌, ◌≤◌, String, ◌<>◌, ◌≡◌, refl, sym, ap, ◌∙◌, Option, none, some, List, [], ◌∷◌, true,
  ltb, arith, eq_refl, Every,
}
use frappe_dsc.Site.{
  Settings, Site, Session, Cached, Profile, Geocode, Result, ok, err, Action, Done, handle,
  continue, try_except, raise_if, Platform, Context, HookCall, cached, log_error,
}
use frappe_dsc.Site.Inversion.{went_through, lift-returns, pure-returns}
use frappe_dsc.Engine.{
  Prepared, PrepareRequest, prepare_pdf_for_signing, pdf_to_sign, signature_spot, session_key,
  session_ttl_seconds, stored,
}
use frappe_dsc.Secrets.{get_or_create_hmac_secret}
use frappe_dsc.Signing.Hooks.{run_handlers, run_dev_hooks}
use frappe_dsc.Signing.Initiate.{check_certificate, record_hash, Position}

-- No developer hook touches the signing sessions in the cache.
abbrev pub SparesSessions : Platform → Type 0
SparesSessions P =
    (hook : String) (call : HookCall)
    → Every (λ h. (s : Site) → (h.1 call s).1.sessions ≡ s.sessions) (P.hooks hook)

logged_error-sessions :
    (title : String) (r : Result Done) (s : Site)
    → (handle (λ e. log_error title) r s).1.sessions ≡ s.sessions
logged_error-sessions title (ok a) s = refl
logged_error-sessions title (err e) s = refl

sequence-sessions :
    {A B : Type 0} (p : Result A × Site) (f : A → Action B) (s : Site)
    → p.1.sessions ≡ s.sessions
    → ((a : A) (u : Site) → (f a u).1.sessions ≡ u.sessions)
    → (continue p.0 f p.1).1.sessions ≡ s.sessions
sequence-sessions (ok a, u) f s h kept = kept a u ∙ h
sequence-sessions (err e, u) f s h kept = h

run_handlers-sessions :
    (hook : String) (call : HookCall) (handlers : List (String × (HookCall → Action Done)))
    (s : Site)
    → Every (λ h. (s : Site) → (h.1 call s).1.sessions ≡ s.sessions) handlers
    → (run_handlers hook call handlers s).1.sessions ≡ s.sessions
unfolding run_handlers
run_handlers-sessions hook call [] s all = refl
run_handlers-sessions hook call ((name, handler) ∷ rest) s all =
    sequence-sessions
      (try_except (handler call)
        (λ e. log_error ("DSC dev hook " <> hook <> " -> " <> name <> " failed")) s)
      (λ _. run_handlers hook call rest) s
      (logged_error-sessions _ (handler call s).0 (handler call s).1 ∙ all.0 s)
      (λ _ u. run_handlers-sessions hook call rest u all.1)

module _ (P : Platform) where
  pub run_dev_hooks-sessions :
      SparesSessions P
      → (hook : String) (call : HookCall) (s : Site)
      → (run_dev_hooks P hook call s).1.sessions ≡ s.sessions
  unfolding run_dev_hooks
  run_dev_hooks-sessions spares hook call s =
      run_handlers-sessions hook call (P.hooks hook) s (spares hook call)

pub cached-later :
    (ctx later : Context) (key : String) (rows : List (Cached Session))
    → ctx.now ≤ later.now
    → cached ctx key rows ≡ none
    → cached later key rows ≡ none
unfolding cached
cached-later ctx later key [] le h = refl
cached-later ctx later key (c ∷ rest) le h = ground (arith, cached-later ctx later key rest le)

pub cached-stored :
    (ctx later : Context) (session_id : String) (session : Session) (rows : List (Cached Session))
    → later.now < ctx.now + session_ttl_seconds
    → cached later (session_key session_id) (stored ctx session_id session rows) ≡ some session
unfolding cached
cached-stored ctx later session_id session rows h =
    let alive : ltb later.now (ctx.now + 600) ≡ true = ground arith in
    rw (eq_refl (session_key session_id), alive) refl

module _ (P : Platform) (ctx : Context) where
  pub prepare-stores :
      (q : PrepareRequest) (s : Site) {result : Prepared} {t : Site}
      → prepare_pdf_for_signing P ctx q s ≡ (ok result, t)
      → (result.session_id ≡ ctx.uuid)
        × (session : Session) × (u : Site) × (t.sessions ≡ stored ctx ctx.uuid session u.sessions)
        × (session.signing_request_name ≡ q.signing_request_name)
        × (session.doctype ≡ q.doctype)
        × (session.docname ≡ q.docname)
        × (session.cert_der ≡ q.cert_der)
  unfolding prepare_pdf_for_signing
  prepare-stores q s h = went_through (pdf_to_sign P q s) h λ pdf s1 e1 h1.
      went_through (signature_spot P pdf q.placement q.template s1) h1 λ spot s2 e2 h2.
        went_through (P.load_certificate q.cert_der, s2) h2
          λ _ s3 e3 h3.
            went_through (P.digest_pdf _, s3) h3
              λ digest s4 e4 h4.
                let (answer, ended) = pure-returns _ _ h4 in
                (
                  ap (λ r. r.session_id) (sym answer),
                  _,
                  s4,
                  ap (λ z. z.sessions) (sym ended),
                  refl,
                  refl,
                  refl,
                  refl,
                )

  pub record_hash-sessions :
      (name : String) (settings : Settings) (result : Prepared) (position : Position)
      (g : Option Geocode) (s : Site)
      → (record_hash P ctx name settings result position g s).1.sessions ≡ s.sessions
  unfolding record_hash
  record_hash-sessions name settings result position g s = ground arith

  pub secret-sessions : (s : Site) → (get_or_create_hmac_secret ctx s).1.sessions ≡ s.sessions
  unfolding get_or_create_hmac_secret
  secret-sessions s = ground arith

  pub check_certificate-returns :
      (p : Profile) (cert : String) (s : Site) {der : String} {t : Site}
      → check_certificate P ctx p cert s ≡ (ok der, t)
      → P.b64decode cert ≡ ok der
  unfolding check_certificate
  check_certificate-returns p cert s h =
      went_through (P.b64decode cert, s) h
        λ der s1 e1 h1. went_through (raise_if _ _ s1) h1 λ _ s2 e2 h2.
          let (answer, ended) = pure-returns der s2 h2 in
          (lift-returns (P.b64decode cert) s e1).0 ∙ ap ok answer
