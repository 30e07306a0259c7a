-- ===== src/Lib.antt =====
-- The e_sign app: a Frappe app that signs documents with the token of a signer, in two steps.
-- A rule makes a signing request for a document; initiate hashes the PDF and answers with a MAC that
-- the desktop bridge checks; finalize puts the signature that comes back into the PDF, verifies it and
-- stores the evidence. This library models the Python code under e_sign/.
--
-- How the code is modelled:
-- - Site is the state. Records has the rows of the DocTypes, State the site: the database as the
--   running transaction sees it, what was last committed, the Redis cache, the mail that was sent.
--   Actions are functions from a site to a result and a site; what was written before a raise stays
--   in the database, and `serve` commits or rolls back as Frappe does at the end of a web request.
--   Store has the database calls and log_event (e_sign/digital_signature/audit.py).
-- - Outside has the code that the app calls and does not hold, as the fields of Platform: hashes and
--   encodings, Frappe's permissions, names, files, mail and rendering, pyHanko and pdfminer, the
--   geocoding services, the handlers of developer hooks. A theorem holds for every Platform. Context
--   is the web request: its user, its clock, the fresh values that it draws.
-- - Requests: e_sign/digital_signature/doctype/dsc_signing_request, the life cycle.
-- - Signing: e_sign/api/signing.py. Initiate has initiate (Guards, Source, Evidence: what stands
--   before it, what it reads, what it stores and answers), Finalize finalize, Lifecycle retry, cancel
--   and abort_in_progress, Progress get_signing_status and get_form_actions, Notices the timeline and
--   the mails, Hooks _run_dev_hooks; Handover is about initiate and finalize together.
-- - Agents: e_sign/api/agent.py, pairing codes, site tokens and the certificates of profiles.
-- - Engine: e_sign/digital_signature/signing_engine.py and signature_anchor.py. Sessions has the
--   cache of signing sessions, Anchor the marker of a print format, Placing the box of the signature, Phases the two steps, Trust the
--   verification, Stamp the text of the stamp.
-- - Templates: e_sign/digital_signature/doctype/dsc_signature_template, the versions of templates.
-- - Rules: e_sign/digital_signature/rule_engine.py. Conditions has the operators over a parameter for
--   floats, Requesting create_signing_request, Engine the loop over the rules.
-- - Gates: print_gate.py and email_gate.py. Permissions: permissions.py and file_protection.py.
--   Documents: the controllers of DSC Document Sign and DSC Profile. Jobs: cleanup.py, retention.py
--   and cert_expiry.py. Evidence: api/evidence.py, the files of the pack as a list, Readme its text. Geocoding:
--   geocoding.py. Secrets: get_or_create_hmac_secret.
-- - Audit: doctype/dsc_audit_event, the controller of the events and their hashes. Reports: the three
--   reports under report/. System: e_sign/hooks.py; Serving has as calls that a
--   site serves the entry points, and the saves and deletions of requests, profiles, templates, events
--   and files by their forms; the forms of the other DocTypes, which have no code of the app behind
--   them that touches requests or events, are steps elsewhere; Keeping what each handler keeps, Auditing what holds after any
--   number of steps.
-- - Base has the shared helpers: Boolean tests, texts, tables as lists of rows with their laws.
--   Tests has a sample site and the theorems at concrete inputs.
--
-- Bounds: numbers are natural numbers without a bound, as Python's are; datetimes are seconds; every
-- recursion is on the structure of a list, except that the digits of a number are written up to a
-- count of them: six for one below a million, which is enough, and for greater ones the power of ten
-- is found below 10 ^ 300. A clock gives one time for the start of a web request and one
-- for the end of its work.
--
-- Not modelled: the JSON text and the zip format of the evidence pack, the grids of the reports,
-- the browser code, the bridge (dsc_bridge), installation and demonstration data.
-- Deleting a signing request by its form, and renaming, are Frappe's alone.
-- The bodies of mails and the lines of the logger are left out.
pub mod Base
pub mod Site
pub mod Requests
pub mod Geocoding
pub mod Engine
pub mod Secrets
pub mod Signing
pub mod Rules
pub mod Permissions
pub mod Gates
pub mod Documents
pub mod Jobs
pub mod Agents
pub mod Templates
pub mod Evidence
pub mod Audit
pub mod Reports
pub mod System
pub mod Tests
