-- ===== src/Site/Outside.antt =====
-- The code that the app calls and does not hold: Frappe, pyHanko, the standard library's hashes
-- and encodings, the geocoding services. And the request that a handler runs in.
use frappe_dsc.Base.{ℕ, String, Bool, Option, List}
use frappe_dsc.Base.Int.{ℤ}
use frappe_dsc.Site.Records.{Details}
use frappe_dsc.Site.State.{Db, Mail}
use frappe_dsc.Site.Actions.{Result, Action, Done}

-- The keyword arguments of a developer hook.
pub record HookCall : Type 0 where
  pub signing_request : String
  pub doctype : String
  pub docname : String
  pub profile : Option String
  pub file_url : Option String
  pub reason : Option String

-- A rectangle in thousandths of a PDF point, with the origin at the bottom left.
pub record Box : Type 0 where
  pub left : ℤ
  pub bottom : ℤ
  pub right : ℤ
  pub top : ℤ

-- A line of text on a page of a PDF, and the upper left corner of its bounding box.
pub record TextLine : Type 0 where
  pub page : ℕ
  pub text : String
  pub x0 : ℤ
  pub y1 : ℤ

-- What pyHanko's async_digest_doc_for_signing is asked for.
pub record DigestRequest : Type 0 where
  pub pdf : String
  pub field_name : String
  pub page : ℤ
  pub box : Option Box
  pub hash_algorithm : String
  pub location : String
  pub reason : String
  pub signer_name : String
  pub cert_der : String

-- The prepared PDF with the ByteRange digest and the place reserved for the CMS.
pub record Digest : Type 0 where
  pub prepared_pdf : String
  pub document_digest : String
  pub reserved_region_start : ℕ
  pub reserved_region_end : ℕ

-- The name, the file name and the URL that Frappe gives a file it stores.
pub record StoredFile : Type 0 where
  pub name : String
  pub file_name : String
  pub file_url : String

-- What asn1crypto reads from a certificate: the common names, the whole names, the serial number in
-- hexadecimal, the validity in UTC.
pub record CertificateInfo : Type 0 where
  pub subject_common_name : Option String
  pub subject_text : String
  pub issuer_common_name : Option String
  pub issuer_text : String
  pub serial : String
  pub not_before : Option ℕ
  pub not_after : Option ℕ

pub record Platform : Type 0 where
  -- hashlib, hmac, base64, json, float(), round() and str() of numbers
  pub sha256 : String → String
  pub hmac_sha256 : String → String → String
  pub b64decode : String → Result String
  pub b64encode : String → String
  pub dump_json : Details → String
  pub json_list : String → Option (List String)
  pub to_float : String → Result String
  pub round4 : String → String
  pub decimal : ℕ → String
  -- add_years with a negative count
  pub years_before : ℕ → ℕ → ℕ
  -- Frappe: roles, permissions, LIKE, names of new rows, stored files, mail, rendering
  pub roles : String → List String
  pub users_with_role : String → List String
  -- has_permission: the user, the DocType, the document if it is about one, the permission type
  pub has_permission : String → String → Option String → String → Bool
  pub like : String → String → Bool
  pub new_name : String → Db → String
  pub store_file : Db → String → String → Result StoredFile
  pub has_signed_field : Bool
  pub send : Mail → Result Done
  pub render_pdf : Db → String → String → String → Result String
  -- the handlers that other apps register for a hook, with their paths
  pub hooks : String → List (String × (HookCall → Action Done))
  -- pdfminer: the lines of a PDF, page by page, up to where it raises; none if it is not installed
  pub text_lines : String → List (Result TextLine)
  -- pyHanko and asn1crypto
  pub load_certificate : String → Result Done
  pub read_certificate : String → Result CertificateInfo
  pub digest_pdf : DigestRequest → Result Digest
  pub signed_attrs : ℕ → String → String
  pub build_cms : String → List String → String → String → Result String
  pub fill_with_cms : Digest → String → Result String
  pub parse_pem : String → Result (List String)
  pub builtin_bundle : Option String
  pub embedded_signatures : String → Result (List String)
  pub validate_signature : Option (List String) → String → Result Bool
  -- the answers of the geocoding providers
  pub nominatim : String → String → Result (Option String)
  pub google : String → String → String → Result (Option (Option String))

-- The request: who makes it, when, from where, and the fresh values that it draws. `later` is the
-- clock when the handler has done its work.
pub record Context : Type 0 where
  pub user : String
  pub now : ℕ
  pub later : ℕ
  pub unix_time : ℕ
  pub request_ip : Option String
  pub user_agent : Option String
  pub uuid : String
  pub nonce : String
  pub new_secret : String
  pub pairing_code : String
  pub site_token : String
  pub site_url : String
