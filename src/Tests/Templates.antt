-- ===== src/Tests/Templates.antt =====
-- The versions of a template on the sample site.
use frappe_dsc.Base.{false, some, List, [], ◌∷◌}
use frappe_dsc.Site.{Site, Status, SignatureTemplate}
use frappe_dsc.Signing.Initiate.{default_template}
use frappe_dsc.Tests.Records.{request_of, site, db}

abbrev stored_template : SignatureTemplate
stored_template = record default_template { name = "T1"; template_name = "Stamp" }

-- The template without the reason in its stamp.
abbrev edited : SignatureTemplate
edited = record stored_template { stamp_show_reason = false }

-- A site with the template, and a signed request that used it.
abbrev used_site : Site
used_site = record site {
  db = record db {
    templates = stored_template ∷ [];
    requests = record (request_of "OLD" Status.signed) { signature_template = some "T1" } ∷ [];
  };
}
