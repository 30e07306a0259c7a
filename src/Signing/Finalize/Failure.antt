-- ===== src/Signing/Finalize/Failure.antt =====
-- api/signing.py, finalize: what is stored when it raises.
use frappe_dsc.Base.{
  String, ◌≡◌, refl, sym, ap, ◌∙◌, true, false, Option, some, arith, find_row, take_text,
}
use frappe_dsc.Site.{
  Status, DocumentStatus, Site, SigningRequest, Session, Error, text_of, Result, ok, err, Action,
  Done, when, handle, try_except, serve, Platform, Context, ◌>>◌, log_error, cached, set_request,
  request_at,
}
use frappe_dsc.Site.Inversion.{RaisesIn}
use frappe_dsc.Engine.{session_key}
use frappe_dsc.Signing.Lifecycle.{mirror_status}
use frappe_dsc.Signing.Notices.{notify_admins_of_failure}
use frappe_dsc.Signing.Finalize.{
  FinalizeCall, FinalizeReply, is_mismatch, failed_row, mismatch_reason, presented_fingerprint,
  expected_fingerprint, reject_certificate, complete, record_failure, log_presented, finalize,
}
use frappe_dsc.Signing.Finalize.Steps.{SameRequests, logged-same, request-set_request, admins-same}
use frappe_dsc.Signing.Finalize.Success.{log_presented-same, expected-profiles}
use frappe_dsc.Signing.Finalize.Raising.{IsThere, complete-raises}

module _ (P : Platform) (ctx : Context) (call : FinalizeCall) (name : String) where
  logged_ok :
      (m : Action Done) (title : String) (s : Site)
      → try_except m (λ e. log_error title) s ≡ (ok tt, (try_except m (λ e. log_error title) s).1)
  logged_ok m title s = ended (m s)
    where
      ended :
          (p : Result Done × Site)
          → handle (λ e. log_error title) p.0 p.1
            ≡ (ok tt, (handle (λ e. log_error title) p.0 p.1).1)
      ended (ok a, t) = refl
      ended (err e, t) = refl

  mirror_status_ok :
      (doc : SigningRequest) (status : DocumentStatus) (s : Site)
      → (mirror_status doc status s ≡ (ok tt, (mirror_status doc status s).1))
        × SameRequests s (mirror_status doc status s).1
  unfolding mirror_status
  mirror_status_ok doc status s = ground arith

  abbrev failed_with : Error → SigningRequest → SigningRequest
  failed_with e q = record q {
    status = Status.failed;
    failure_reason = take_text 500 (text_of e);
    modified = ctx.now;
  }

  record_failure_lem :
      (req : SigningRequest) (e : Error) (s : Site) {q : SigningRequest}
      → request_at name s ≡ some q
      → let (r, t) = record_failure P ctx req name e s in
        (r ≡ err e) × (request_at name t ≡ some (failed_with e q)) × (t.durable ≡ t.db)
  unfolding record_failure failed_row
  record_failure_lem req e s {q} found =
      let marked : Site = (set_request ctx name (failed_row (take_text 500 (text_of e))) s).1 in
      let mirrored = mirror_status_ok req DocumentStatus.failed marked in
      rw
        (
          mirrored.0,
          logged_ok (notify_admins_of_failure P ctx name)
              "DSC: admin failure-notification email failed",
        )
        (
          refl,
          ap (find_row (λ r. r.name) name) (
                (logged-same (notify_admins_of_failure P ctx name) _ _ (admins-same P ctx name _)).0
                ∙ mirrored.1.0)
              ∙ request-set_request ctx name (failed_row (take_text 500 (text_of e))) s (λ r. refl)
                  found,
          refl,
        )

module _ (P : Platform) (ctx : Context) (call : FinalizeCall) (s : Site) {session : Session}
    {presented : Option String} {req : SigningRequest}
    (live : cached ctx (session_key call.session_id) s.sessions ≡ some session)
    (shown : presented_fingerprint P call.cert_der_b64 ≡ ok presented)
    (found : request_at session.signing_request_name s ≡ some req) where
  abbrev request : String
  request = session.signing_request_name

  -- The state behind the two events that are logged first.
  abbrev announced : Site
  announced = (log_presented P ctx call request presented s).1

  announced_ok : log_presented P ctx call request presented s ≡ (ok tt, announced)
  unfolding log_presented
  announced_ok = refl

  announced_request : request_at request announced ≡ some req
  announced_request =
      ap (find_row (λ r. r.name) request)
        (log_presented-same P ctx call request session presented s).0.0
      ∙ found

  -- finalize gets as far as the comparison of the fingerprints.
  reaches :
      finalize P ctx call s
      ≡ (when
              (is_mismatch (expected_fingerprint req s.db) presented)
              (reject_certificate P ctx request (expected_fingerprint req s.db) presented)
            >> try_except (complete P ctx call request) (record_failure P ctx req request))
          announced
  unfolding finalize log_presented
  reaches = rw (
    live,
    shown,
    announced_request,
    expected-profiles req s.db announced.db
        (log_presented-same P ctx call request session presented s).1,
  )

  -- A certificate that contradicts the profile fails the request for good: though the web request
  -- raises and is rolled back, what is committed shows the request as Failed, with the reason.
  pub mismatch_committed :
      is_mismatch (expected_fingerprint req s.db) presented ≡ true
      → let (r, t) = serve (finalize P ctx call) s in
        (r ≡ err Error.fingerprint_mismatch)
        × (request_at session.signing_request_name t
            ≡ some (record req {
              status = Status.failed;
              failure_reason = mismatch_reason;
              modified = ctx.now;
            }))
        × (t.durable ≡ t.db)
  unfolding reject_certificate failed_row
  mismatch_committed wrong =
      rw (reaches, wrong)
        (
          refl,
          request-set_request ctx request (failed_row mismatch_reason) announced (λ r. refl)
              announced_request,
          refl,
        )

  recorded :
      {e : Error} {t : Site} (p : Result FinalizeReply × Site)
      → RaisesIn (IsThere request) p
      → handle (record_failure P ctx req request) p.0 p.1 ≡ (err e, t)
      → (q : SigningRequest) × (request_at request t ≡ some q)
        × (q.status ≡ Status.failed)
        × (q.failure_reason ≡ take_text 500 (text_of e))
        × (t.durable ≡ t.db)
  unfolding RaisesIn IsThere
  recorded (ok a, u) there h = absurd (cc)
  recorded {e} {t} (err e', u) (q, there) h =
      let (raised, failed, committed) = record_failure_lem P ctx call request req e' u there in
      let same : e' ≡ e = cc in
      let ends : (record_failure P ctx req request e' u).1 ≡ t = cc in
      (
        failed_with P ctx call request e' q,
        sym (ap (request_at request) ends) ∙ failed,
        refl,
        ap (λ x. take_text 500 (text_of x)) same,
        sym (ap (λ z. z.durable) ends) ∙ committed ∙ ap (λ z. z.db) ends,
      )

  -- A finalize that raises behind the check of the certificate has committed before that the request
  -- is Failed, with the first 500 characters of the error as the reason.
  pub failure_committed :
      is_mismatch (expected_fingerprint req s.db) presented ≡ false
      → {e : Error} {t : Site} → finalize P ctx call s ≡ (err e, t)
      → (q : SigningRequest) × (request_at session.signing_request_name t ≡ some q)
        × (q.status ≡ Status.failed)
        × (q.failure_reason ≡ take_text 500 (text_of e))
        × (t.durable ≡ t.db)
  unfolding IsThere
  failure_committed fits {e} {t} h =
      recorded (complete P ctx call request announced)
        (complete-raises P ctx call request announced (req, announced_request))
        (rw (reaches, fits) at h)
