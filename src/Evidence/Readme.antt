-- ===== src/Evidence/Readme.antt =====
-- e_sign/api/evidence.py: build_readme. A datetime is written as its number of seconds.
use frappe_dsc.Base.{
  ℕ, zero, suc, String, ◌<>◌, Option, none, some, List, [], ◌∷◌, eqb, or_text, truthy,
  if◌then◌else◌,
}
use frappe_dsc.Site.{SigningRequest, Profile, AuditEvent, status_text, Platform, Context}

-- What `{x}` writes.
abbrev shown : Option String → String
shown none = "None"
shown (some t) = t

count_events : List AuditEvent → ℕ
count_events [] = zero
count_events (e ∷ rest) = suc (count_events rest)

module _ (P : Platform) where
  abbrev shown_time : Option ℕ → String
  shown_time none = "None"
  shown_time (some t) = P.decimal t

  -- `{x or 'N/A'}`
  number_or_na : Option ℕ → String
  number_or_na none = "N/A"
  number_or_na (some n) = if eqb n 0 then "N/A" else P.decimal n

  signer_part : Profile → String
  unfolding number_or_na
  signer_part p =
      "SIGNER INFORMATION\n------------------\nProfile:          "
      <> p.profile_name
      <> "\nSigner Name:      "
      <> shown (if truthy p.certificate_common_name then p.certificate_common_name else p.label)
      <> "\nDesignation:      "
      <> or_text p.designation_for_stamp (or_text p.label "N/A")
      <> "\nCertificate:      "
      <> or_text p.certificate_fingerprint "N/A"
      <> "\nIssuer:           "
      <> or_text p.certificate_issuer "N/A"
      <> "\nValid From:        "
      <> number_or_na p.certificate_not_before
      <> "\nValid Until:       "
      <> number_or_na p.certificate_not_after

  details_part : SigningRequest → String
  unfolding number_or_na
  details_part r =
      "SIGNING DETAILS\n---------------\nSigned By User:   "
      <> shown r.actual_signer_user
      <> "\nSigned On:        "
      <> shown_time r.signed_on
      <> "\nHash Algorithm:   "
      <> shown r.hash_algorithm
      <> "\nDuration:         "
      <> number_or_na r.sign_duration_seconds
      <> " seconds\nClient IP:        "
      <> or_text r.client_ip "N/A"

  contents_part : SigningRequest → List AuditEvent → String
  unfolding count_events
  contents_part r events =
      "CONTENTS OF THIS PACK\n---------------------\n1. signed_"
      <> r.source_name
      <> ".pdf  — The digitally signed PDF document\n2. audit_trail.json             — Complete audit trail with "
      <> P.decimal (count_events events)
      <> " events\n3. signer_certificate.pem       — Public certificate of the signer (PEM format)\n4. ocsp_response.der            — OCSP response at time of signing (DER format)\n5. README.txt                   — This file"

  abbrev verification_part : String
  verification_part =
      "VERIFICATION\n------------\nTo verify the signed PDF:\n1. Open the PDF in Adobe Acrobat Reader\n2. Check the signature panel for validity\n3. The signature should show as valid if the signer's CA root\n   is in Adobe's Approved Trust List (AATL)\n\nFor Indian CAs (eMudhra, Sify, nCode), the root certificates\nare included in Adobe's AATL by default.\n\nLEGAL NOTICE\n------------\nThis evidence pack is generated by the frappe_dsc digital signing\nplatform. The audit trail records are append-only and tamper-evident.\nThe signed PDF conforms to the PAdES B-B signature standard."

  unfoldable pub build_readme : Context → SigningRequest → Profile → List AuditEvent → String
  unfolding signer_part details_part contents_part
  build_readme ctx r p events =
      "DIGITAL SIGNATURE EVIDENCE PACK\n================================\n\nSigning Request:  "
      <> r.name
      <> "\nSource Document:   "
      <> r.source_doctype
      <> " / "
      <> r.source_name
      <> "\nStatus:           "
      <> status_text r.status
      <> "\n\n"
      <> signer_part p
      <> "\n\n"
      <> details_part r
      <> "\n\n"
      <> contents_part r events
      <> "\n\n"
      <> verification_part
      <> "\n\nGenerated on: "
      <> P.decimal ctx.now
      <> "\n"
