-- ===== src/Signing/Notices.antt =====
-- api/signing.py: add_timeline_entry, notify_admins_of_failure and send_signed_notification.
use mathlib.Core.Option
use frappe_dsc.Base.{
  String, ◌<>◌, ◌==◌, not, ◌||◌, Option, none, some, List, [], ◌∷◌, ◌++◌, ◌&&◌, or_text, rows_where,
  first_where, if◌then◌else◌,
}
use frappe_dsc.Site.{
  SigningRequest, Profile, Db, Error, Action, Done, pure, gets, modify, or_raise, ◌>>=◌, ◌>>◌,
  Platform, Context, get_request, get_profile, send_now, queue_mail,
}

-- `owner` of a document, of which the database holds (doctype, name, owner).
unfoldable pub owner_of : String → String → Db → Option String
unfolding first_where
owner_of doctype docname d =
    Option.map (λ o. o.2) (first_where (λ o. o.0 == doctype && o.1 == docname) d.owners)

module _ (P : Platform) (ctx : Context) where
  timeline_text : Profile → String
  timeline_text p =
      "Digitally signed by <b>"
      <> or_text p.certificate_common_name (or_text p.label p.profile_name)
      <> "</b> ("
      <> or_text p.designation_for_stamp (or_text p.label "")
      <> ") at "
      <> P.decimal ctx.later

  unfoldable pub add_timeline_entry : String → String → String → Action Done
  unfolding timeline_text
  add_timeline_entry doctype docname signing_request = do
    req ← get_request signing_request
    profile ← get_profile req.profile
    modify λ d. record d {
      comments =
          d.comments
          ++ record {
            reference_doctype = doctype;
            reference_name = docname;
            content = timeline_text profile;
          }
            ∷ [];
    }

  -- `a.parent and a.parent != "Administrator"`
  unfoldable pub failure_recipients : List String → List String
  unfolding rows_where
  failure_recipients = rows_where (λ u. not (u == "" || u == "Administrator"))

  request_subject : Option SigningRequest → String
  request_subject none = "DSC signing failed:  "
  request_subject (some r) = "DSC signing failed: " <> r.source_doctype <> " " <> r.source_name

  unfoldable pub mail_admins : String → List String → Action Done
  unfolding request_subject
  mail_admins signing_request [] = pure tt
  mail_admins signing_request (u ∷ rest) = do
    all ← gets (λ d. d.requests)
    send_now P (record {
      recipients = u ∷ rest;
      subject = request_subject (first_where (λ r. r.name == signing_request) all);
      about_request = some signing_request;
    })

  unfoldable pub notify_admins_of_failure : String → Action Done
  unfolding failure_recipients mail_admins
  notify_admins_of_failure signing_request =
      mail_admins signing_request (failure_recipients (P.users_with_role "DSC Administrator"))

  unfoldable pub mail_creator : String → String → String → String → Action Done
  mail_creator creator doctype docname signing_request = do
    req ← get_request signing_request
    get_profile req.profile
    queue_mail P (record {
      recipients = creator ∷ [];
      subject = doctype <> " " <> docname <> " has been digitally signed";
      about_request = some signing_request;
    })

  unfoldable pub send_signed_notification : String → String → String → Action Done
  unfolding owner_of mail_creator
  send_signed_notification doctype docname signing_request = do
    owner ← gets (owner_of doctype docname)
    creator ← or_raise owner (Error.does_not_exist doctype docname)
    if creator == ctx.user then pure tt else mail_creator creator doctype docname signing_request
