-- ===== src/Templates.antt =====
-- doctype/dsc_signature_template/dsc_signature_template.py: the versions of signature templates.
pub mod Versioning
use frappe_dsc.Base.{
  ℕ, ◌+◌, String, ◌<>◌, ◌==◌, Bool, true, false, not, ◌&&◌, ◌||◌, Option, none, some, List, [], ◌∷◌,
  ◌++◌, eqb, is_text, get_or, or_num, any_row, find_row, update_row, if◌then◌else◌,
}
use frappe_dsc.Site.{
  SigningRequest, SignatureField, SignatureTemplate, Db, Action, Done, pure, gets, modify, ◌>>=◌,
  ◌>>◌, Platform,
}

-- `(a or "") != (b or "")`
abbrev texts_differ : Option String → Option String → Bool
texts_differ a b = not (get_or a "" == get_or b "")

abbrev bools_differ : Bool → Bool → Bool
bools_differ true b = not b
bools_differ false b = b

abbrev same_optional : Option String → Option String → Bool
same_optional none none = true
same_optional (some a) (some b) = a == b
same_optional _ _ = false

-- The seven columns of two rows.
abbrev same_field : SignatureField → SignatureField → Bool
same_field a b =
    a.field_name == b.field_name
    && eqb a.page_number b.page_number
    && eqb a.x b.x
    && eqb a.y b.y
    && eqb a.width b.width
    && eqb a.height b.height
    && same_optional a.assigned_profile b.assigned_profile

unfoldable pub same_fields : List SignatureField → List SignatureField → Bool
same_fields [] [] = true
same_fields (a ∷ as_) (b ∷ bs) = same_field a b && same_fields as_ bs
same_fields _ _ = false

unfoldable pub versioned_fields_changed : SignatureTemplate → SignatureTemplate → Bool
unfolding same_fields
versioned_fields_changed t p =
    texts_differ t.target_doctype p.target_doctype
    || texts_differ t.print_format p.print_format
    || bools_differ t.stamp_show_signer_name p.stamp_show_signer_name
    || bools_differ t.stamp_show_designation p.stamp_show_designation
    || bools_differ t.stamp_show_digitally_signed_by p.stamp_show_digitally_signed_by
    || bools_differ t.stamp_show_timestamp p.stamp_show_timestamp
    || texts_differ t.stamp_timestamp_format p.stamp_timestamp_format
    || bools_differ t.stamp_show_reason p.stamp_show_reason
    || bools_differ t.stamp_show_location p.stamp_show_location
    || bools_differ t.stamp_show_dn_cn p.stamp_show_dn_cn
    || bools_differ t.stamp_include_signature_image p.stamp_include_signature_image
    || bools_differ t.stamp_include_seal_image p.stamp_include_seal_image
    || texts_differ t.stamp_font_family p.stamp_font_family
    || not (eqb t.stamp_font_size p.stamp_font_size)
    || bools_differ t.stamp_border p.stamp_border
    || not (same_fields p.fields t.fields)

-- The columns of `_VERSIONED_FIELDS` and the rows of `p`, the rest of `t`.
unfoldable pub with_versioned : SignatureTemplate → SignatureTemplate → SignatureTemplate
with_versioned p t = record p {
  name = t.name;
  template_name = t.template_name;
  version = t.version;
  is_active = t.is_active;
}

unfoldable pub has_signing_history : String → Db → Bool
unfolding any_row
has_signing_history name d = any_row (λ r. is_text r.signature_template name) d.requests

module _ (P : Platform) where
  -- The row of the new version.
  unfoldable pub new_version : String → SignatureTemplate → SignatureTemplate → SignatureTemplate
  new_version name p t = record t {
    name = name;
    template_name = p.template_name <> " v" <> P.decimal (or_num p.version 1 + 1);
    version = or_num p.version 1 + 1;
    is_active = true;
  }

  unfoldable pub fork_new_version : SignatureTemplate → SignatureTemplate → Action Done
  unfolding new_version
  fork_new_version p t = do
    name ← gets (P.new_name "DSC Signature Template")
    modify λ d. record d { templates = d.templates ++ new_version name p t ∷ [] }

  -- The rest of before_save, with the row that the database holds: the template that is saved.
  unfoldable pub keep_or_fork :
      SignatureTemplate → Option SignatureTemplate → Action SignatureTemplate
  unfolding versioned_fields_changed fork_new_version with_versioned
  keep_or_fork t none = pure t
  keep_or_fork t (some p) =
      if versioned_fields_changed t p
      then (do fork_new_version p t; pure (record (with_versioned p t) { is_active = false }))
      else pure t

  -- before_save of a template that is new, or was saved before.
  unfoldable pub before_save : Bool → SignatureTemplate → Action SignatureTemplate
  unfolding has_signing_history keep_or_fork
  before_save true t = pure (record t { version = or_num t.version 1 })
  before_save false t = do
    used ← gets (has_signing_history t.name)
    previous ← gets (λ d. find_row (λ q. q.name) t.name d.templates)
    if used then keep_or_fork t previous else pure t

  -- `doc.save()` of a row that is there, and `doc.insert()` of a new one, whose name is its template
  -- name.
  unfoldable pub save_template : Bool → SignatureTemplate → Action Done
  unfolding before_save
  save_template is_new t = do
    q ← before_save is_new t
    modify λ d. record d {
      templates =
          if is_new
          then d.templates ++ record q { name = q.template_name } ∷ []
          else update_row (λ r. r.name) t.name (λ r. q) d.templates;
    }
