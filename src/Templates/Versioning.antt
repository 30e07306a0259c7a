-- ===== src/Templates/Versioning.antt =====
-- dsc_signature_template.py: a template that was used is never changed in place.
use frappe_dsc.Site.{Site}
