-- ===== src/System/Keeping.antt =====
-- What every action of the app keeps, with one rule for each way to build an action.
pub mod Lifecycle
pub mod Rules
pub mod Sweeps
pub mod Steps
pub mod Finalize
pub mod Guards
pub mod Preparing
pub mod Initiate
pub mod Agents
pub mod Reading
pub mod Saving
use mathlib.Core.List.{append_assoc}
use frappe_dsc.Base.{
  String, ◌≡◌, refl, ◌∙◌, ap, Bool, true, false, Bool-cases, ◌⊎◌, inl, inr, Option, none, some,
  List, [], ◌∷◌, ◌++◌, is_some, Every, update_row, if◌then◌else◌, ◌==◌,
}
use frappe_dsc.Base.Queries.{Every-append}
use frappe_dsc.Site.{
  Status, same_status, same_status-eq, SigningRequest, AuditEvent, Site, Error, Result, ok, err,
  Action, Done, get_request, request_at, or_raise, continue, when, handle, pure, Platform,
  compute_event_hash,
}

-- A request that is Signed has its evidence.
abbrev pub IsEvidenced : SigningRequest → Type 0
IsEvidenced r =
    r.status ≡ Status.signed
    → (is_some r.signed_file ≡ true)
      × (is_some r.actual_signer_user ≡ true)
      × (is_some r.signed_on ≡ true)
      × (is_some r.certificate_fingerprint_presented ≡ true)

not_both : (b : Bool) → b ≡ false → b ≡ true → ⊥
not_both b f t = cc

pub unsigned-IsEvidenced :
    (r : SigningRequest) → same_status r.status Status.signed ≡ false → IsEvidenced r
unsigned-IsEvidenced r other e =
    elim (not_both (same_status r.status Status.signed) other (same_status-eq e)) [ ]

-- The hash of an event is the one that its columns give.
abbrev pub IsHashed : Platform → AuditEvent → Type 0
IsHashed P e =
    e.event_hash ≡ compute_event_hash P e.request e.event_type e.occurred_at e.actor_user e.details

-- The log that is there before, and whether the requests had their evidence then and it is to be kept.
pub record Baseline : Type 0 where
  pub log : List AuditEvent
  pub with_evidence : Bool

-- The log is that of `base` with further events behind it, whose hashes are right, and the Signed requests
-- have their evidence, if it is to be kept.
pub record IsSound (P : Platform) (base : Baseline) (log : List AuditEvent)
    (rows : List SigningRequest) : Type 0 where
  pub new : List AuditEvent
  pub logged : log ≡ base.log ++ new
  pub hashed : Every (IsHashed P) new
  pub evidenced : base.with_evidence ≡ true → Every IsEvidenced rows

-- In the running transaction, and in what is committed.
pub record IsKept (P : Platform) (base : Baseline) (s : Site) : Type 0 where
  pub running : IsSound P base s.db.audit_events s.db.requests
  pub committed : IsSound P base s.durable.audit_events s.durable.requests

abbrev pub Keeps : {A : Type 0} → Platform → Baseline → Action A → Type 0
Keeps P base m = (s : Site) → IsKept P base s → IsKept P base (m s).1

updated :
    (name : String) (f : SigningRequest → SigningRequest) (rows : List SigningRequest)
    → ((r : SigningRequest) → IsEvidenced r → IsEvidenced (f r))
    → Every IsEvidenced rows
    → Every IsEvidenced (update_row (λ r. r.name) name f rows)
unfolding update_row
updated name f [] kf all = tt
updated name f (r ∷ rest) kf all = elim (Bool-cases (r.name == name)) [
  | inl here ↦ rw here (kf r all.0, all.1)
  | inr other ↦ rw other (all.0, updated name f rest kf all.1)
]

module _ {P : Platform} {base : Baseline} {log : List AuditEvent} {rows : List SigningRequest} where
  -- An event at the end of the log, with the hash that log_event gives it.
  pub log_event-IsSound :
      (e : AuditEvent)
      → IsSound P base log rows
      → IsHashed P e
      → IsSound P base (log ++ e ∷ []) rows
  log_event-IsSound e h right = record {
    new = h.new ++ e ∷ [];
    logged = ap (λ z. z ++ e ∷ []) h.logged ∙ append_assoc base.log h.new (e ∷ []);
    hashed = Every-append (IsHashed P) h.new (e ∷ []) h.hashed (right, tt);
    evidenced = h.evidenced;
  }

  pub updated-IsSound :
      (name : String) (f : SigningRequest → SigningRequest)
      → IsSound P base log rows
      → (base.with_evidence ≡ true → (r : SigningRequest) → IsEvidenced r → IsEvidenced (f r))
      → IsSound P base log (update_row (λ r. r.name) name f rows)
  updated-IsSound name f h kf = record {
    new = h.new;
    logged = h.logged;
    hashed = h.hashed;
    evidenced = λ e. updated name f rows (kf e) (h.evidenced e);
  }

  pub inserted-IsSound :
      (r : SigningRequest)
      → IsSound P base log rows
      → (base.with_evidence ≡ true → IsEvidenced r)
      → IsSound P base log (rows ++ r ∷ [])
  inserted-IsSound r h kr = record {
    new = h.new;
    logged = h.logged;
    hashed = h.hashed;
    evidenced = λ e. Every-append IsEvidenced rows (r ∷ []) (h.evidenced e) (kr e, tt);
  }

  pub update-IsSound :
      (name : String) (f : SigningRequest → SigningRequest)
      → IsSound P base log rows
      → ((r : SigningRequest) → IsEvidenced r → IsEvidenced (f r))
      → IsSound P base log (update_row (λ r. r.name) name f rows)
  update-IsSound name f h kf = updated-IsSound name f h (λ _. kf)

  pub insert-IsSound :
      (r : SigningRequest)
      → IsSound P base log rows
      → IsEvidenced r
      → IsSound P base log (rows ++ r ∷ [])
  insert-IsSound r h kr = inserted-IsSound r h (λ _. kr)

module _ {P : Platform} {base : Baseline} where
  -- A sequence: the first action keeps, and so does the rest from where it ends.
  pub after :
      {A B : Type 0} (p : Result A × Site) (f : A → Action B)
      → IsKept P base p.1
      → ((a : A) → Keeps P base (f a))
      → IsKept P base (continue p.0 f p.1).1
  after (ok a, s) f h kf = kf a s h
  after (err e, s) f h kf = h

  pub tried :
      {A : Type 0} (p : Result A × Site) (f : Error → Action A)
      → IsKept P base p.1
      → ((e : Error) → Keeps P base (f e))
      → IsKept P base (handle f p.0 p.1).1
  tried (ok a, s) f h kf = h
  tried (err e, s) f h kf = kf e s h

  pub branches :
      {A : Type 0} (b : Bool) (m n : Action A)
      → Keeps P base m
      → Keeps P base n
      → Keeps P base (if b then m else n)
  branches true m n km kn = km
  branches false m n km kn = kn

  pub when-Keeps : (b : Bool) (m : Action Done) → Keeps P base m → Keeps P base (when b m)
  when-Keeps b m km = branches b m (pure tt) km (λ s h. h)

  pub or_raise-Keeps : {A : Type 0} (o : Option A) (e : Error) → Keeps P base (or_raise o e)
  or_raise-Keeps none e s h = h
  or_raise-Keeps (some a) e s h = h

  pub get_request-Keeps : (name : String) → Keeps P base (get_request name)
  get_request-Keeps name s h = or_raise-Keeps (request_at name s) _ s h
