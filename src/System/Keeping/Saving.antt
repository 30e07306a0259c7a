-- ===== src/System/Keeping/Saving.antt =====
-- What the forms save and delete: the controllers of the signing requests and the audit events, and
-- file_protection.py.
use frappe_dsc.Base.{String, Bool, true, not, truthy, ◌≡◌, refl}
use frappe_dsc.Site.{SigningRequest, AuditEvent, Error, raise_if, Platform, Context, get_file}
use frappe_dsc.Requests.{validate_status_transition, insert_new}
use frappe_dsc.Audit.{with_hash, before_insert, before_save, on_trash, insert}
use frappe_dsc.Permissions.{before_delete, delete_file}
use frappe_dsc.System.Keeping.{
  Baseline, IsEvidenced, Keeps, after, or_raise-Keeps, inserted-IsSound, log_event-IsSound,
}
use frappe_dsc.System.Keeping.Lifecycle.{stamp_status-IsEvidenced}

module _ (P : Platform) (base : Baseline) (ctx : Context) where
  pub insert_new-Keeps :
      (doc : SigningRequest)
      → (base.with_evidence ≡ true → IsEvidenced doc)
      → Keeps P base (insert_new P ctx doc)
  unfolding insert_new validate_status_transition
  insert_new-Keeps doc k s h =
      let name = P.new_name "DSC Signing Request" s.db in
      after
        (raise_if (not (truthy doc.profile)) (Error.mandatory_missing "DSC Signing Request" name) s)
        _ h
        λ _ s1 h1. record {
          running = inserted-IsSound _ h1.running (λ e.
              stamp_status-IsEvidenced ctx doc.status
                (record doc {
                  name = name;
                  creation = ctx.now;
                  created_on = ctx.now;
                  modified = ctx.now;
                })
                (k e));
          committed = h1.committed;
        }

  pub insert-Keeps : (e : AuditEvent) → Keeps P base (insert P ctx e)
  unfolding insert before_save before_insert with_hash
  insert-Keeps e s h = record {
    running = log_event-IsSound _ h.running refl;
    committed = h.committed;
  }

  pub before_save-Keeps : (is_new : Bool) → Keeps P base (before_save P ctx is_new)
  unfolding before_save
  before_save-Keeps is_new s h = h

  pub on_trash-Keeps : Keeps P base (on_trash P ctx)
  unfolding on_trash
  on_trash-Keeps s h = h

  pub delete_file-Keeps : (name : String) → Keeps P base (delete_file P ctx name)
  unfolding delete_file before_delete
  delete_file-Keeps name s h = after (get_file name s) _ (or_raise-Keeps _ _ s h) λ file s1 h1.
      after (before_delete P ctx file s1) _ h1
        λ _ s2 h2. record { running = h2.running; committed = h2.committed }
