-- ===== src/Site/Store.antt =====
-- The calls of Frappe's database, mail and cache that the handlers share, and audit.py.
use frappe_dsc.Base.{
  ℕ, String, ◌==◌, ◌&&◌, Option, none, some, List, [], ◌∷◌, ◌++◌, ltb, get_or, find_row, update_row,
  if◌then◌else◌,
}
use frappe_dsc.Site.Records.{
  SigningRequest, DocumentSign, Profile, Details, Json, detail, no_details,
}
use frappe_dsc.Site.State.{File, Mail, Cached}
use frappe_dsc.Site.Errors.{Error}
use frappe_dsc.Site.Actions.{
  Result, ok, err, Action, Done, gets, or_raise, modify, ◌>>=◌, ◌>>◌, lift,
}
use frappe_dsc.Site.Outside.{Platform, Context}

-- `get_doc`, which raises for a name that is not there; a Link that is not set names nothing.
abbrev pub get_request : String → Action SigningRequest
get_request name = do
  rows ← gets (λ d. d.requests)
  or_raise (find_row (λ r. r.name) name rows) (Error.does_not_exist "DSC Signing Request" name)

abbrev pub get_document : String → Action DocumentSign
get_document name = do
  rows ← gets (λ d. d.documents)
  or_raise (find_row (λ r. r.name) name rows) (Error.does_not_exist "DSC Document Sign" name)

abbrev pub get_profile : Option String → Action Profile
get_profile name = do
  rows ← gets (λ d. d.profiles)
  or_raise (find_row (λ r. r.name) (get_or name "") rows)
      (Error.does_not_exist "DSC Profile" (get_or name ""))

abbrev pub get_file_by_url : String → Action File
get_file_by_url url = do
  rows ← gets (λ d. d.files)
  or_raise (find_row (λ r. r.file_url) url rows) (Error.does_not_exist "File" url)

abbrev pub get_file : String → Action File
get_file name = do
  rows ← gets (λ d. d.files)
  or_raise (find_row (λ r. r.name) name rows) (Error.does_not_exist "File" name)

-- `db.set_value(…, update_modified=False)`: no controller runs, and a missing row is no error.
abbrev pub write_request : String → (SigningRequest → SigningRequest) → Action Done
write_request name f =
    modify λ d. record d { requests = update_row (λ r. r.name) name f d.requests }

abbrev pub write_document : String → (DocumentSign → DocumentSign) → Action Done
write_document name f =
    modify λ d. record d { documents = update_row (λ r. r.name) name f d.documents }

-- `frappe.log_error`
abbrev pub log_error : String → Action Done
log_error title = modify λ d. record d { error_log = d.error_log ++ title ∷ [] }

-- `dict` that is empty is false.
abbrev pub filled : Option Details → Option Details
filled none = none
filled (some no_details) = none
filled (some d) = some d

-- A row of the mail queue, which is a table.
abbrev pub enqueue : Mail → Action Done
enqueue mail = modify λ d. record d { mails = d.mails ++ mail ∷ [] }

abbrev pub deliver : Mail → Result Done → Action Done
deliver mail (ok a) s = (ok tt, record s { sent = s.sent ++ mail ∷ [] })
deliver mail (err e) s = (err e, s)

module _ (ctx : Context) where
  -- `db.set_value`, which also stamps `modified`.
  abbrev pub set_request : String → (SigningRequest → SigningRequest) → Action Done
  set_request name f = write_request name λ r. record (f r) { modified = ctx.now }

  -- The cache gives no entry that has expired.
  unfoldable pub cached : {A : Type 0} → String → List (Cached A) → Option A
  cached key [] = none
  cached key (c ∷ rest) =
      if c.key == key && ltb ctx.now c.expires then some c.value else cached key rest

module _ (P : Platform) where
  -- `frappe.sendmail(now=True)` sends at once, or raises.
  abbrev pub send_now : Mail → Action Done
  send_now mail = deliver mail (P.send mail)

  -- `frappe.sendmail` without `now` puts the mail in the queue, or raises.
  abbrev pub queue_mail : Mail → Action Done
  queue_mail mail = do lift (P.send mail); enqueue mail

module _ (P : Platform) where
  -- `details_json or ""`
  details_json : Option Details → String
  details_json none = ""
  details_json (some d) = P.dump_json d

  -- The hash over the columns, in the order of their names.
  unfoldable pub compute_event_hash : String → String → ℕ → String → Option Details → String
  unfolding details_json
  compute_event_hash request event_type occurred_at actor_user details = P.sha256 (
      P.dump_json (
        detail "actor_user" (Json.str actor_user) (
          detail "details_json" (Json.str (details_json details)) (
            detail "event_type" (Json.str event_type) (
              detail "occurred_at" (Json.str (P.decimal occurred_at))
                (detail "request" (Json.str request) no_details))))))

module _ (P : Platform) (ctx : Context) where
  -- log_event of audit.py, with the hash that `before_insert` of the event computes.
  abbrev pub log_event : String → String → Option Details → Action Done
  log_event request event_type details = modify λ d. record d {
    audit_events =
        d.audit_events
        ++ record {
          name = P.new_name "DSC Audit Event" d;
          request = request;
          event_type = event_type;
          occurred_at = ctx.now;
          actor_user = ctx.user;
          client_ip = ctx.request_ip;
          user_agent = ctx.user_agent;
          details = filled details;
          event_hash = compute_event_hash P request event_type ctx.now ctx.user (filled details);
        }
          ∷ [];
  }
