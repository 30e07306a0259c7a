-- ===== src/Engine/Stamp.antt =====
-- signing_engine.py, build_stamp_text.
use frappe_dsc.Base.{
  String, ◌<>◌, Bool, Option, List, [], ◌∷◌, ◌++◌, truthy, or_text, or_else, get_or, if◌then◌else◌,
}
use frappe_dsc.Site.{Profile, SignatureTemplate, Settings}

-- `"\n".join(lines)`
unfoldable pub join_lines : List String → String
join_lines [] = ""
join_lines (l ∷ []) = l
join_lines (l ∷ m ∷ rest) = l <> "\n" <> join_lines (m ∷ rest)

abbrev pub line_if : Bool → String → List String
line_if c l = if c then l ∷ [] else []

unfoldable pub signer_name : Profile → String
signer_name p = or_text p.certificate_common_name (or_text p.label p.profile_name)

designation_line : Option String → List String
designation_line d = line_if (truthy d) (get_or d "")

unfoldable pub stamp_lines : SignatureTemplate → Profile → Settings → Option String → List String
unfolding signer_name designation_line
stamp_lines t p settings location =
    line_if t.stamp_show_digitally_signed_by "Digitally signed by"
    ++ line_if t.stamp_show_signer_name (signer_name p)
    ++ (if t.stamp_show_designation
        then designation_line (or_else p.designation_for_stamp p.label)
        else [])
    ++ line_if t.stamp_show_timestamp
        ("Date: " <> or_text t.stamp_timestamp_format "%d-%m-%Y %H:%M:%S %Z")
    ++ line_if t.stamp_show_reason ("Reason: " <> or_text settings.default_reason "Approved")
    ++ line_if t.stamp_show_location
        ("Location: " <> or_text location (or_text settings.default_location ""))

unfoldable pub build_stamp_text : SignatureTemplate → Profile → Settings → Option String → String
unfolding stamp_lines join_lines
build_stamp_text t p settings location = join_lines (stamp_lines t p settings location)
