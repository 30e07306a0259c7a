-- ===== src/Gates/Printing.antt =====
-- print_gate.py: download_pdf.
pub mod Blocking
use frappe_dsc.Base.{
  String, ◌==◌, Bool, not, ◌&&◌, Option, none, some, truthy, first_where, if◌then◌else◌,
}
use frappe_dsc.Site.{
  Status, same_status, SigningRequest, Rule, File, Db, Error, Action, pure, gets, raise_if, ◌>>=◌,
  ◌>>◌, Platform, Context, get_file,
}

-- The answer: the bytes of a signed file, or whatever Frappe's own download_pdf gives.
pub data Download : Type 0 where
  signed_copy : File → Download
  delegated : Download

unfoldable pub blocks_print : String → Rule → Bool
blocks_print doctype r = r.target_doctype == doctype && r.is_enabled && r.block_print_until_signed

-- The filter of a document's signed requests, for both gates.
unfoldable pub is_signed_for : String → String → SigningRequest → Bool
is_signed_for doctype name r =
    r.source_doctype == doctype && r.source_name == name && same_status r.status Status.signed

-- The signed file of the request that the query gives, if it names one.
unfoldable pub signed_file_of : Option SigningRequest → Option String
signed_file_of none = none
signed_file_of (some r) = if truthy r.signed_file then r.signed_file else none

unfoldable pub signed_file_for : String → String → Db → Option String
unfolding signed_file_of
signed_file_for doctype name d =
    signed_file_of (first_where (is_signed_for doctype name) d.requests)

unfoldable pub serve_or_block : String → Rule → Option String → Action Download
serve_or_block doctype rule (some file) = do f ← get_file file; pure (signed_copy f)
serve_or_block doctype rule none =
    raise_if rule.is_mandatory (Error.print_needs_signature doctype) >> pure delegated

module _ (P : Platform) (ctx : Context) where
  unfoldable pub gate : String → String → Option Rule → Action Download
  unfolding serve_or_block
  gate doctype name none = pure delegated
  gate doctype name (some rule) = do
    raise_if (not (P.has_permission ctx.user doctype (some name) "read"))
        (Error.permission_denied doctype name)
    file ← gets (signed_file_for doctype name)
    serve_or_block doctype rule file

  unfoldable pub download_pdf : String → String → Action Download
  unfolding gate
  download_pdf doctype name = do
    rule ← gets (λ d. first_where (blocks_print doctype) d.rules)
    gate doctype name rule
