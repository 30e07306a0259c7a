-- ===== src/Site/Views.antt =====
-- The rows of a name, and what the writes of the store do to them.
use frappe_dsc.Base.{String, ◌≡◌, ◌≢◌, refl, [], ◌∷◌, ◌++◌, true, false, Option, find_row}
use frappe_dsc.Site.Records.{Status, same_status, SigningRequest, DocumentSign}
use frappe_dsc.Site.State.{AuditEvent, Db, Site}
use frappe_dsc.Site.Outside.{Context}

-- The signing request of a name in a database.
abbrev pub request_in : String → Db → Option SigningRequest
request_in name d = find_row (λ r. r.name) name d.requests

-- As the running transaction sees it.
abbrev pub request_at : String → Site → Option SigningRequest
request_at name s = request_in name s.db

abbrev pub document_at : String → Site → Option DocumentSign
document_at name s = find_row (λ r. r.name) name s.db.documents

same_status_self : (a : Status) → same_status a a ≡ true
same_status_self Status.pending = refl
same_status_self Status.in_progress = refl
same_status_self Status.signed = refl
same_status_self Status.failed = refl
same_status_self Status.cancelled = refl

pub same_status-eq : {a b : Status} → a ≡ b → same_status a b ≡ true
same_status-eq {a} {b} h = rw h (same_status_self b)

pub eq_of_same_status : (a b : Status) → same_status a b ≡ true → a ≡ b
eq_of_same_status Status.pending Status.pending h = refl
eq_of_same_status Status.in_progress Status.in_progress h = refl
eq_of_same_status Status.signed Status.signed h = refl
eq_of_same_status Status.failed Status.failed h = refl
eq_of_same_status Status.cancelled Status.cancelled h = refl
eq_of_same_status _ _ h = cc

pub same_status-ne : (a b : Status) → a ≢ b → same_status a b ≡ false
same_status-ne Status.pending Status.pending h = absurd (h refl)
same_status-ne Status.in_progress Status.in_progress h = absurd (h refl)
same_status-ne Status.signed Status.signed h = absurd (h refl)
same_status-ne Status.failed Status.failed h = absurd (h refl)
same_status-ne Status.cancelled Status.cancelled h = absurd (h refl)
same_status-ne _ _ h = refl

-- One audit event of a kind was added at the end of the log, and nothing else.
abbrev pub IsLogged : Context → String → String → Db → Db → Type 0
IsLogged ctx request event_type d d' =
    (e : AuditEvent) × (d'.audit_events ≡ d.audit_events ++ e ∷ [])
    × (e.request ≡ request)
    × (e.event_type ≡ event_type)
    × (e.actor_user ≡ ctx.user)
    × (e.occurred_at ≡ ctx.now)
