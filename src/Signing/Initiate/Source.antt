-- ===== src/Signing/Initiate/Source.antt =====
-- api/signing.py: _read_uploaded_pdf, and what initiate takes from the source document.
use frappe_dsc.Base.{
  String, ◌==◌, starts_with, Bool, true, false, not, ◌||◌, Option, none, some, [], eqb, or_num,
  or_text, truthy, get_or, find_row, if◌then◌else◌,
}
use frappe_dsc.Site.{
  DocumentStatus, SignatureTemplate, Db, Error, Action, pure, gets, raise_if, or_raise, ◌>>=◌, ◌>>◌,
  get_document, get_file_by_url, write_document,
}
use frappe_dsc.Engine.{Placement}
use frappe_dsc.Signing.Initiate.Calls.{PendingRequest, get_column}

unfoldable pub read_uploaded_pdf : Option String → Action String
read_uploaded_pdf url = do
  raise_if (not (truthy url)) Error.no_pdf_uploaded
  file ← get_file_by_url (get_or url "")
  raise_if (not (starts_with file.content "%PDF")) Error.invalid_pdf
  pure file.content

-- The template that is made up where a request has none.
abbrev pub default_template : SignatureTemplate
default_template = record {
  name = "";
  template_name = "";
  version = 1;
  is_active = true;
  target_doctype = none;
  print_format = none;
  stamp_show_dn_cn = false;
  stamp_include_signature_image = false;
  stamp_include_seal_image = false;
  stamp_font_family = none;
  stamp_font_size = 8;
  stamp_border = true;
  fields = [];
  stamp_show_signer_name = true;
  stamp_show_designation = true;
  stamp_show_digitally_signed_by = true;
  stamp_show_timestamp = true;
  stamp_timestamp_format = some "%d-%m-%Y %H:%M:%S %Z";
  stamp_show_reason = true;
  stamp_show_location = true;
}

unfoldable pub load_template : Option String → Action SignatureTemplate
load_template name = do
  rows ← gets (λ d. d.templates)
  if truthy name
      then or_raise (find_row (λ t. t.name) (get_or name "") rows)
          (Error.does_not_exist "DSC Signature Template" (get_or name ""))
      else pure default_template

-- The bytes and the placement of a DSC Document Sign record, which goes In Progress.
unfoldable pub uploaded_document : String → Action (Option (String × Placement))
unfolding read_uploaded_pdf
uploaded_document docname = do
  doc_sign ← get_document docname
  bytes ← read_uploaded_pdf doc_sign.uploaded_pdf
  raise_if (eqb doc_sign.sig_width 0 || eqb doc_sign.sig_height 0) Error.no_signature_position
  write_document docname (λ d. record d { status = DocumentStatus.in_progress })
  pure (
      some (
        bytes,
        record {
          page = or_num doc_sign.sig_page 1;
          x = doc_sign.sig_x;
          y = doc_sign.sig_y;
          width = doc_sign.sig_width;
          height = doc_sign.sig_height;
        },
      ))

unfoldable pub uploaded_pdf : String → String → Action (Option (String × Placement))
unfolding uploaded_document
uploaded_pdf doctype docname =
    if doctype == "DSC Document Sign" then uploaded_document docname else pure none

rule_print_format : Option String → Db → Option String
rule_print_format none d = none
rule_print_format (some rule) d = elim (find_row (λ r. r.name) rule d.rules) [
  | none ↦ none
  | some r ↦ r.print_format
]

default_print_format : String → Db → String
default_print_format doctype d = elim (find_row (λ p. p.0) doctype d.default_print_formats) [
  | none ↦ "Standard"
  | some p ↦ if p.1 == "" then "Standard" else p.1
]

-- The print format of the rule, of the DocType, or "Standard".
unfoldable pub choose_print_format : String → PendingRequest → Db → String
unfolding get_column rule_print_format default_print_format
choose_print_format doctype r d =
    or_text (rule_print_format (get_column "rule" r) d) (default_print_format doctype d)

unfoldable pub print_format_for : String → PendingRequest → Bool → Db → Option String
unfolding choose_print_format
print_format_for doctype r uploaded d =
    if uploaded then none else some (choose_print_format doctype r d)
