-- ===== src/Gates/Emailing.antt =====
-- email_gate.py: make, check_email_allowed and get_signed_pdf_for_attachment.
pub mod Attaching
use frappe_dsc.Base.{
  String, ◌==◌, Bool, not, ◌&&◌, ◌||◌, false, Option, none, some, List, [], ◌∷◌, ◌++◌, truthy,
  get_or, any_row, if◌then◌else◌,
}
use frappe_dsc.Site.{
  Rule, File, Db, Error, Action, Done, pure, gets, raise_if, ◌>>=◌, ◌>>◌, get_file,
}
use frappe_dsc.Gates.Printing.{is_signed_for, signed_file_for}

-- An item of `attachments`: a dictionary with its `fid`, or a text.
pub data Attachment : Type 0 where
  fid : Option String → Attachment
  named : String → Attachment

-- The keyword `attachments`: missing, a list, or a text, which web requests send.
pub data Attachments : Type 0 where
  missing : Attachments
  items : List Attachment → Attachments
  text : String → Attachments

-- What the loop over a text gives: its characters.
unfoldable pub characters : String → List Attachment
characters String.[] = []
characters (String.◌∷◌ c s) = named (String.◌∷◌ c "") ∷ characters s

unfoldable pub existing : Attachments → List Attachment
unfolding characters
existing missing = []
existing (items l) = l
existing (text t) = characters t

-- The keyword arguments of `make` that the gate reads and passes on.
pub record Email : Type 0 where
  pub doctype : Option String
  pub name : Option String
  pub attachments : Attachments

unfoldable pub blocks_email : String → Rule → Bool
blocks_email doctype r = r.target_doctype == doctype && r.is_enabled && r.block_email_until_signed

-- No rule blocks, or a signed request exists.
unfoldable pub may_email : String → String → Db → Bool
unfolding any_row blocks_email is_signed_for
may_email doctype name d =
    not (any_row (blocks_email doctype) d.rules) || any_row (is_signed_for doctype name) d.requests

unfoldable pub check_email_allowed : String → String → Action Done
check_email_allowed doctype name = do
  allowed ← gets (may_email doctype name)
  raise_if (not allowed) (Error.email_needs_signature doctype)

unfoldable pub load_file : Option String → Action (Option File)
load_file none = pure none
load_file (some name) = do f ← get_file name; pure (some f)

unfoldable pub get_signed_pdf_for_attachment : String → String → Action (Option File)
unfolding load_file
get_signed_pdf_for_attachment doctype name = do
  file ← gets (signed_file_for doctype name)
  load_file file

unfoldable pub is_attachment_of : String → Attachment → Bool
is_attachment_of name (fid none) = false
is_attachment_of name (fid (some f)) = f == name
is_attachment_of name (named n) = n == name

-- The file goes to the end of the list, unless it is there already.
unfoldable pub attach : Option File → Email → Email
unfolding any_row is_attachment_of existing
attach none mail = mail
attach (some f) mail =
    if any_row (is_attachment_of f.name) (existing mail.attachments)
    then mail
    else record mail { attachments = items (existing mail.attachments ++ fid (some f.name) ∷ []) }

unfoldable pub gated : String → String → Email → Action Email
unfolding check_email_allowed get_signed_pdf_for_attachment
gated doctype name mail = do
  check_email_allowed doctype name
  file ← get_signed_pdf_for_attachment doctype name
  pure (attach file mail)

-- The mail as it is handed to Frappe's own `make`.
unfoldable pub make : Email → Action Email
unfolding gated
make mail =
    if truthy mail.doctype && truthy mail.name
    then gated (get_or mail.doctype "") (get_or mail.name "") mail
    else pure mail
