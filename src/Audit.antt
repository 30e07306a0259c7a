-- ===== src/Audit.antt =====
-- doctype/dsc_audit_event/dsc_audit_event.py: the controller of the audit events.
use frappe_dsc.Base.{
  String, ◌==◌, Bool, true, false, not, Option, none, some, [], ◌∷◌, ◌++◌, eqb, if◌then◌else◌,
}
use frappe_dsc.Site.{
  AuditEvent, Error, Action, Done, raise, gets, modify, raise_if, ◌>>=◌, ◌>>◌, Platform, Context,
  compute_event_hash,
}

-- `if not self.client_ip`
abbrev given : Option String → Bool
given none = false
given (some t) = not (t == "")

module _ (P : Platform) (ctx : Context) where
  -- before_insert: what is missing is filled in, and the hash is computed over the columns.
  unfoldable pub with_hash : AuditEvent → AuditEvent
  with_hash e = record e {
    event_hash = compute_event_hash P e.request e.event_type e.occurred_at e.actor_user e.details;
  }

  unfoldable pub before_insert : AuditEvent → AuditEvent
  unfolding with_hash
  before_insert e = with_hash (record e {
    occurred_at = if eqb e.occurred_at 0 then ctx.now else e.occurred_at;
    actor_user = if e.actor_user == "" then ctx.user else e.actor_user;
    client_ip = if given e.client_ip then e.client_ip else ctx.request_ip;
  })

  -- before_save, for a row that is new or is not.
  unfoldable pub before_save : Bool → Action Done
  before_save is_new = raise_if (not is_new) Error.audit_modified

  unfoldable pub on_trash : Action Done
  on_trash = raise Error.audit_deleted

  -- `insert()`: a name, the controller, the row.
  unfoldable pub insert : AuditEvent → Action Done
  unfolding before_insert before_save
  insert e = do
    name ← gets (P.new_name "DSC Audit Event")
    before_save true
    modify λ d. record d {
      audit_events = d.audit_events ++ before_insert (record e { name = name }) ∷ [];
    }
