-- ===== src/Requests/Saving.antt =====
-- dsc_signing_request.py: the life cycle that the controller admits, and what a save does.
use frappe_dsc.Base.{
  String, ◌≡◌, refl, ◌≢◌, some, false, update_row, update_row-found, update_row-other, ◌∙◌,
}
use frappe_dsc.Site.{
  Status, same_status, SigningRequest, Site, Error, ok, err, Context, request_at, request_in, Db,
}
use frappe_dsc.Requests.{validate_status_transition, stamp_status, save_request}

-- The life cycle of a signing request.
pub data Transition : Status → Status → Type 0 where
  start : Transition Status.pending Status.in_progress
  withdraw : Transition Status.pending Status.cancelled
  complete : Transition Status.in_progress Status.signed
  break : Transition Status.in_progress Status.failed
  reopen : Transition Status.failed Status.pending

validates_legal :
    {old new : Status}
    → Transition old new
    → (s : Site) → validate_status_transition (some old) new s ≡ (ok tt, s)
unfolding validate_status_transition
validates_legal start s = refl
validates_legal withdraw s = refl
validates_legal complete s = refl
validates_legal break s = refl
validates_legal reopen s = refl

changes : {old new : Status} → Transition old new → same_status old new ≡ false
changes start = refl
changes withdraw = refl
changes complete = refl
changes break = refl
changes reopen = refl

refuses :
    (old new : Status) (s : Site)
    → old ≢ new
    → ¬ Transition old new
    → validate_status_transition (some old) new s ≡ (err (Error.bad_transition old new), s)
unfolding validate_status_transition
refuses Status.pending Status.in_progress s ne no_step = absurd (no_step start)
refuses Status.pending Status.cancelled s ne no_step = absurd (no_step withdraw)
refuses Status.in_progress Status.signed s ne no_step = absurd (no_step complete)
refuses Status.in_progress Status.failed s ne no_step = absurd (no_step break)
refuses Status.failed Status.pending s ne no_step = absurd (no_step reopen)
refuses Status.pending Status.pending s ne no_step = absurd (ne refl)
refuses Status.in_progress Status.in_progress s ne no_step = absurd (ne refl)
refuses Status.failed Status.failed s ne no_step = absurd (ne refl)
refuses Status.signed Status.signed s ne no_step = absurd (ne refl)
refuses Status.cancelled Status.cancelled s ne no_step = absurd (ne refl)
refuses _ _ s ne no_step = refl

name-stamp_status :
    (ctx : Context) (t : Status) (r : SigningRequest) → (stamp_status ctx t r).name ≡ r.name
unfolding stamp_status
name-stamp_status ctx Status.signed r = refl
name-stamp_status ctx _ r = refl

-- What a step of the life cycle sets besides the status: the time of a signature or a withdrawal.
abbrev pub stamped :
    {old new : Status} → Context → Transition old new → SigningRequest → SigningRequest
stamped ctx start r = r
stamped ctx withdraw r = record r { cancelled_on = some ctx.now }
stamped ctx complete r = record r { signed_on = some ctx.now }
stamped ctx break r = r
stamped ctx reopen r = r

-- The database after `doc` was saved with a status of its own.
abbrev pub saved : Context → SigningRequest → Db → Db
saved ctx doc d = record d {
  requests =
      update_row (λ r. r.name) doc.name (stamp_status ctx doc.status)
        (update_row (λ r. r.name) doc.name (λ r. record doc { modified = ctx.now }) d.requests);
}

module _ (ctx : Context) (doc : SigningRequest) (s : Site) {old : SigningRequest}
    (found : request_at doc.name s ≡ some old) where
  -- The database after the save of a change of status along the life cycle.
  pub save_request-saved :
      Transition old.status doc.status
      → save_request ctx doc s ≡ (ok tt, record s { db = saved ctx doc s.db })
  unfolding save_request
  save_request-saved t = rw (found, validates_legal t s, changes t)

  -- The row of the document after it.
  pub request-saved :
      request_in doc.name (saved ctx doc s.db)
      ≡ some (stamp_status ctx doc.status (record doc { modified = ctx.now }))
  request-saved =
      update_row-found (λ r. r.name) doc.name (stamp_status ctx doc.status) _
        (λ a h. name-stamp_status ctx doc.status a ∙ h)
        (update_row-found (λ r. r.name) doc.name (λ r. record doc { modified = ctx.now })
          s.db.requests (λ a h. refl) found)

  -- The save of a change of status that is not in the life cycle raises, and leaves the site as it
  -- was.
  pub save_request-illegal :
      old.status ≢ doc.status
      → ¬ Transition old.status doc.status
      → save_request ctx doc s ≡ (err (Error.bad_transition old.status doc.status), s)
  unfolding save_request
  save_request-illegal ne no_step = rw (found, refuses old.status doc.status s ne no_step)

-- The other requests stay as they are.
pub request-saved_other :
    (ctx : Context) (doc : SigningRequest) (d : Db) (j : String)
    → doc.name ≢ j
    → request_in j (saved ctx doc d) ≡ request_in j d
request-saved_other ctx doc d j ne =
    update_row-other (λ r. r.name) doc.name j (stamp_status ctx doc.status) _
      (λ a h. name-stamp_status ctx doc.status a ∙ h) ne
    ∙ update_row-other (λ r. r.name) doc.name j (λ r. record doc { modified = ctx.now }) d.requests
        (λ a h. refl) ne
