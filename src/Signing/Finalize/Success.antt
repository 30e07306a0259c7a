-- ===== src/Signing/Finalize/Success.antt =====
-- api/signing.py, finalize: what is stored when it returns.
use frappe_dsc.Base.{false, String, ◌≡◌, sym, ap, ◌∙◌, Option, some, arith, find_row}
use frappe_dsc.Site.{
  Status, Site, SigningRequest, Session, Db, Error, ok, err, Done, or_raise, when, Platform,
  Context, HookCall, cached, get_request, request_at,
}
use frappe_dsc.Site.Inversion.{
  went_through, at_end, lift-returns, try_except-returns, or_raise-returns,
}
use frappe_dsc.Engine.{session_key}
use frappe_dsc.Signing.Hooks.{run_dev_hooks}
use frappe_dsc.Signing.Finalize.{
  FinalizeCall, FinalizeReply, is_mismatch, presented_fingerprint, expected_fingerprint,
  reject_certificate, complete, record_failure, log_presented, finalize,
}
use frappe_dsc.Signing.Finalize.Steps.{SameRequests}
use frappe_dsc.Signing.Finalize.Filing.{IsFiled}
use frappe_dsc.Signing.Finalize.Completing.{Commits, complete-returns}

-- The certificate that the agent presents, if any, has the fingerprint that is expected, if any.
abbrev pub Admits : Platform → FinalizeCall → Option String → Type 0
Admits P call expected =
    (presented : Option String) × (presented_fingerprint P call.cert_der_b64 ≡ ok presented)
    × (is_mismatch expected presented ≡ false)

module _ (P : Platform) (ctx : Context) (call : FinalizeCall) (name : String)
    (session : Session) where
  record_failure-raises :
      (req : SigningRequest) (e : Error) (s : Site)
      → (e' : Error) × ((record_failure P ctx req name e s).0 ≡ err e')
  unfolding record_failure
  record_failure-raises req e s = (e, ground arith)

  mismatch-returns :
      (expected presented : Option String) (s : Site) {d : Done} {t : Site}
      → when (is_mismatch expected presented) (reject_certificate P ctx name expected presented) s
        ≡ (ok d, t)
      → (is_mismatch expected presented ≡ false) × (t ≡ s)
  unfolding reject_certificate
  mismatch-returns expected presented s h = ground arith

  pub log_presented-same :
      (presented : Option String) (s : Site)
      → SameRequests s (log_presented P ctx call name presented s).1
        × ((log_presented P ctx call name presented s).1.db.profiles ≡ s.db.profiles)
  unfolding log_presented
  log_presented-same presented s = ground arith

pub expected-profiles :
    (req : SigningRequest) (d d' : Db)
    → d'.profiles ≡ d.profiles
    → expected_fingerprint req d' ≡ expected_fingerprint req d
unfolding expected_fingerprint
expected-profiles req d d' same = rw same

module _ (P : Platform) (ctx : Context) (call : FinalizeCall) where
  -- What is known of a finalize that returned: its session, and the state at the last commit.
  abbrev pub IsCompleted : Site → FinalizeReply → Site → Type 0
  IsCompleted s reply t =
      (session : Session) × (req : SigningRequest) × (u : Site) × (hook : HookCall) × (cached ctx
          (session_key call.session_id) s.sessions
        ≡ some session)
      × (request_at session.signing_request_name s ≡ some req)
      × Admits P call (expected_fingerprint req s.db)
      × Commits P ctx call session.signing_request_name session s u
      × IsFiled P session.signing_request_name u reply
      × (reply.status ≡ Status.signed)
      × (t ≡ (run_dev_hooks P "dsc_after_sign" hook u).1)

  -- A finalize that returns had a live session and a certificate that does not contradict the
  -- profile. What it commits, and gives to the hooks that run last, shows the request of the session
  -- as Signed, with the evidence of the caller, and the session is used up. The request points to a
  -- file that is stored, whose content is what was verified: the reply has the verdict on it, and
  -- it has a signature that was verified or at least found.
  pub finalize_signs :
      (s : Site) {reply : FinalizeReply} {t : Site}
      → finalize P ctx call s ≡ (ok reply, t)
      → IsCompleted s reply t
  unfolding finalize
  finalize_signs s h =
      went_through
        (or_raise (cached ctx (session_key call.session_id) s.sessions) Error.session_expired s) h
        λ session s0 e0 h0.
          went_through (presented_fingerprint P call.cert_der_b64, s0) h0
            λ presented s1 e1 h1.
              went_through (log_presented P ctx call session.signing_request_name presented s1) h1
                λ _ s2 e2 h2.
                  went_through (get_request session.signing_request_name s2) h2 λ req s3 e3 h3.
                    went_through
                      (when (is_mismatch (expected_fingerprint req s3.db) presented)
                        (reject_certificate P ctx session.signing_request_name
                          (expected_fingerprint req s3.db) presented)
                        s3)
                      h3
                      λ _ s4 e4 h4.
                        let done =
                          try_except-returns (complete P ctx call session.signing_request_name s4)
                            (record_failure P ctx req session.signing_request_name) h4
                            (record_failure-raises P ctx call session.signing_request_name session
                              req) in
                        let (live, same0) =
                          or_raise-returns (cached ctx (session_key call.session_id) s.sessions) _ s
                            e0 in
                        let (shown, same1) =
                          lift-returns (presented_fingerprint P call.cert_der_b64) s0 e1 in
                        let from_start : s1 ≡ s = same1 ∙ same0 in
                        let (logged, profiles) =
                          at_end (λ z. SameRequests s1 z × (z.db.profiles ≡ s1.db.profiles)) e2
                            (log_presented-same P ctx call session.signing_request_name session
                              presented s1) in
                        let (there, same3) =
                          or_raise-returns (request_at session.signing_request_name s2) _ s2 e3 in
                        let (admitted, same4) =
                          mismatch-returns P ctx call session.signing_request_name session
                            (expected_fingerprint req s3.db) presented s3 e4 in
                        let found : request_at session.signing_request_name s ≡ some req =
                          ap (find_row (λ r. r.name) session.signing_request_name)
                            (sym (logged.0 ∙ ap (λ z. z.db.requests) from_start))
                          ∙ there in
                        let found4 : request_at session.signing_request_name s4 ≡ some req =
                          ap (λ z. request_at session.signing_request_name z) (same4 ∙ same3)
                          ∙ there in
                        let live4 : cached ctx (session_key call.session_id) s4.sessions
                            ≡ some session =
                          ap (cached ctx (session_key call.session_id)) (
                            ap (λ z. z.sessions) (same4 ∙ same3)
                            ∙ logged.1
                            ∙ ap (λ z. z.sessions) from_start)
                          ∙ live in
                        let expected : expected_fingerprint req s3.db
                            ≡ expected_fingerprint req s.db =
                          expected-profiles req s.db s3.db (
                            ap (λ z. z.db.profiles) same3
                            ∙ profiles
                            ∙ ap (λ z. z.db.profiles) from_start) in
                        let (u, hook, commits, signed, status, ended) =
                          complete-returns P ctx call session.signing_request_name session s4 req
                            live4 found4 done in
                        (
                          session,
                          req,
                          u,
                          hook,
                          live,
                          found,
                          (
                            presented,
                            shown,
                            ap (λ x. is_mismatch x presented) (sym expected) ∙ admitted,
                          ),
                          commits,
                          signed,
                          status,
                          ended,
                        )
