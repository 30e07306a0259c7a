-- ===== src/Gates/Emailing/Attaching.antt =====
-- email_gate.py: what make refuses, and what it attaches.
use frappe_dsc.Base.{
  String, ◌≡◌, refl, sym, ap, true, false, ◌&&◌, none, some, List, [], ◌∷◌, ◌++◌, ◌⊎◌, any_row,
  find_row, Bool-cases, inl, inr, eq_iff, ◌==◌, Every, arith,
}
use frappe_dsc.Base.Queries.{IsIn, any_row-IsIn, any_row-Every}
use frappe_dsc.Site.{Status, same_status, Site, Rule, File, Error, ok, err}
use frappe_dsc.Gates.Printing.{is_signed_for, signed_file_for}
use frappe_dsc.Gates.Emailing.{
  Attachment, fid, named, Attachments, existing, Email, may_email, blocks_email, is_attachment_of,
  attach, make,
}

-- The file is among the attachments, by a dictionary with its name or by its name.
abbrev pub Holds : File → Email → Type 0
Holds f mail =
    IsIn (fid (some f.name)) (existing mail.attachments)
    ⊎ IsIn (named f.name) (existing mail.attachments)

is_attachment_of-names :
    (name : String) (a : Attachment)
    → is_attachment_of name a ≡ true
    → (a ≡ fid (some name)) ⊎ (a ≡ named name)
unfolding is_attachment_of
is_attachment_of-names name (fid none) h = absurd (cc)
is_attachment_of-names name (fid (some f)) h = inl (ap (λ n. fid (some n)) ((eq_iff f name).0 h))
is_attachment_of-names name (named n) h = inr (ap named ((eq_iff n name).0 h))

found-Holds :
    (name : String) (l : List Attachment)
    → any_row (is_attachment_of name) l ≡ true
    → IsIn (fid (some name)) l ⊎ IsIn (named name) l
unfolding any_row
found-Holds name [] h = absurd (cc)
found-Holds name (a ∷ rest) h = elim (Bool-cases (is_attachment_of name a)) [
  | inl here ↦ elim (is_attachment_of-names name a here) [
    | inl same ↦ inl (inl (sym same))
    | inr same ↦ inr (inl (sym same))
  ]
  | inr other ↦ elim (found-Holds name rest (rw other at h)) [
    | inl later ↦ inl (inr later)
    | inr later ↦ inr (inr later)
  ]
]

IsIn-end : (l : List Attachment) (a : Attachment) → IsIn a (l ++ a ∷ [])
IsIn-end [] a = inl refl
IsIn-end (b ∷ rest) a = inr (IsIn-end rest a)

attach-Holds : (f : File) (mail : Email) → Holds f (attach (some f) mail)
unfolding attach existing
attach-Holds f mail =
    elim (Bool-cases (any_row (is_attachment_of f.name) (existing mail.attachments))) [
      | inl there ↦ rw there (found-Holds f.name (existing mail.attachments) there)
      | inr new ↦ rw new (inl (IsIn-end (existing mail.attachments) (fid (some f.name))))
    ]

-- A mail about a document.
abbrev pub about : String → String → Attachments → Email
about doctype name attachments = record {
  doctype = some doctype;
  name = some name;
  attachments = attachments;
}

module _ (doctype name : String) (attachments : Attachments) (s : Site)
    (has_doctype : (doctype == "") ≡ false) (has_name : (name == "") ≡ false) where
  -- If an enabled rule blocks mails of the DocType and no request of the document is Signed, a mail
  -- about the document is refused, and nothing changes.
  pub email_blocked :
      (rule : Rule)
      → IsIn rule s.db.rules
      → rule.target_doctype ≡ doctype
      → rule.is_enabled ≡ true
      → rule.block_email_until_signed ≡ true
      → Every
          (λ r.
            (r.source_doctype == doctype
              && r.source_name == name
              && same_status r.status Status.signed)
            ≡ false)
          s.db.requests
      → make (about doctype name attachments) s ≡ (err (Error.email_needs_signature doctype), s)
  unfolding make may_email is_signed_for blocks_email
  email_blocked rule within target enabled blocks unsigned =
      let matches : blocks_email doctype rule ≡ true =
        ground (arith, eq_iff rule.target_doctype doctype) in
      rw
        (
          has_doctype,
          has_name,
          any_row-IsIn (blocks_email doctype) s.db.rules within matches,
          any_row-Every (is_signed_for doctype name) s.db.requests unsigned,
        )
        refl

  -- A mail that may go out about a document with a signed file holds that file when it leaves,
  -- whatever attachments it came with.
  pub email_attaches :
      (file : String) {f : File}
      → may_email doctype name s.db ≡ true
      → signed_file_for doctype name s.db ≡ some file
      → find_row (λ g. g.name) file s.db.files ≡ some f
      → (mail : Email) × (make (about doctype name attachments) s ≡ (ok mail, s)) × Holds f mail
  unfolding make
  email_attaches file {f} may signed found = (
    attach (some f) (about doctype name attachments),
    rw (has_doctype, has_name, may, signed, found) refl,
    attach-Holds f (about doctype name attachments),
  )
