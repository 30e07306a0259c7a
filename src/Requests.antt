-- ===== src/Requests.antt =====
-- doctype/dsc_signing_request/dsc_signing_request.py: the controller of the signing requests.
pub mod Saving
use frappe_dsc.Base.{
  Option, none, truthy, ◌++◌, Bool, false, not, ◌||◌, List, [], ◌∷◌, some, if◌then◌else◌,
}
use frappe_dsc.Site.{
  gets, modify, Status, same_status, SigningRequest, Error, Action, Done, pure, raise_if, when,
  ◌>>=◌, ◌>>◌, Platform, Context, get_request, write_request, set_request,
}

-- The table `valid_transitions`.
unfoldable pub valid_transitions : Status → List Status
valid_transitions Status.pending = Status.in_progress ∷ Status.cancelled ∷ []
valid_transitions Status.in_progress = Status.signed ∷ Status.failed ∷ []
valid_transitions Status.failed = Status.pending ∷ []
valid_transitions Status.signed = []
valid_transitions Status.cancelled = []

has_status : List Status → Status → Bool
has_status [] t = false
has_status (x ∷ xs) t = same_status x t || has_status xs t

unfoldable pub check_change : Status → Status → Action Done
unfolding valid_transitions has_status
check_change old new =
    if same_status old new
    then pure tt
    else raise_if (not (has_status (valid_transitions old) new)) (Error.bad_transition old new)

-- The controller's validate_status_transition, for the status in the database, if there is a row, and
-- the new one.
unfoldable pub validate_status_transition : Option Status → Status → Action Done
unfolding check_change
validate_status_transition none new = pure tt
validate_status_transition (some old) new = check_change old new

module _ (ctx : Context) where
  -- The time stamps that the controller's on_update sets for a new status.
  unfoldable pub stamp_status : Status → SigningRequest → SigningRequest
  stamp_status Status.signed r = record r { signed_on = some ctx.now }
  stamp_status Status.cancelled r = record r { cancelled_on = some ctx.now }
  stamp_status Status.pending r = r
  stamp_status Status.in_progress r = r
  stamp_status Status.failed r = r

  -- `doc.save()` of a row that is there: validate, write the row, on_update.
  unfoldable pub save_request : SigningRequest → Action Done
  save_request doc = do
    old ← get_request doc.name
    validate_status_transition (some old.status) doc.status
    set_request ctx doc.name (λ r. doc)
    when (not (same_status old.status doc.status))
        (write_request doc.name (stamp_status doc.status))

module _ (P : Platform) (ctx : Context) where
  -- `doc.insert()`: before_insert, the column that must be filled, validate of a new row, the row,
  -- and on_update, for which the status of a new row has changed.
  unfoldable pub insert_new : SigningRequest → Action Done
  insert_new doc = do
    name ← gets (P.new_name "DSC Signing Request")
    raise_if (not (truthy doc.profile)) (Error.mandatory_missing "DSC Signing Request" name)
    validate_status_transition none doc.status
    modify λ d. record d {
      requests =
          d.requests
          ++ stamp_status ctx doc.status (record doc {
            name = name;
            creation = ctx.now;
            created_on = ctx.now;
            modified = ctx.now;
          })
            ∷ [];
    }
