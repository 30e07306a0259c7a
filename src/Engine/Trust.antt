-- ===== src/Engine/Trust.antt =====
-- signing_engine.py: _load_trust_store and verify_signed_pdf.
pub mod Verifying
use frappe_dsc.Base.{
  ℕ, zero, suc, String, Bool, false, Option, none, some, List, [], ◌∷◌, ◌++◌, all_rows, is_some,
  truthy, get_or, if◌then◌else◌,
}
use frappe_dsc.Site.{
  text_of, Result, ok, err, Action, pure, lift, gets, try_except, ◌>>=◌, ◌>>◌, Platform, log_error,
  get_file_by_url,
}

-- One entry of `signatures`: the verdict, and what the validation raised.
pub record SignatureResult : Type 0 where
  pub field_name : String
  pub bottom_line : Bool
  pub validation_error : Option String

pub record Verification : Type 0 where
  pub is_valid : Bool
  pub error : Option String
  pub signatures : List SignatureResult
  pub signature_count : Option ℕ
  pub trust_store_configured : Bool

abbrev pub not_verified : String → Verification
not_verified e = record {
  is_valid = false;
  error = some e;
  signatures = [];
  signature_count = none;
  trust_store_configured = false;
}

-- `if not anchors: return None`
unfoldable pub some_anchors : List String → Option (List String)
some_anchors [] = none
some_anchors (a ∷ rest) = some (a ∷ rest)

module _ (P : Platform) where
  unfoldable pub builtin_anchors : Option String → Action (List String)
  builtin_anchors none = pure []
  builtin_anchors (some bundle) = lift (P.parse_pem bundle)

  unfoldable pub uploaded_anchors : Option String → Action (List String)
  uploaded_anchors url =
      if truthy url
      then (do file ← get_file_by_url (get_or url ""); lift (P.parse_pem file.content))
      else pure []

  -- The bundle that is shipped, with the bundle of an administrator; an error is logged and means
  -- pyHanko's own defaults.
  unfoldable pub load_trust_store : Action (Option (List String))
  unfolding builtin_anchors uploaded_anchors some_anchors
  load_trust_store =
      try_except
        (do
          builtin ← builtin_anchors P.builtin_bundle
          settings ← gets (λ d. d.settings)
          uploaded ← uploaded_anchors settings.trust_store_bundle
          pure (some_anchors (builtin ++ uploaded)))
        (λ e. log_error "DSC trust store load failed" >> pure none)

  unfoldable pub signature_result : String → Result Bool → SignatureResult
  signature_result field_name (ok valid) = record {
    field_name = field_name;
    bottom_line = valid;
    validation_error = none;
  }
  signature_result field_name (err e) = record {
    field_name = field_name;
    bottom_line = false;
    validation_error = some (text_of e);
  }

  unfoldable pub validate_all : Option (List String) → List String → List SignatureResult
  unfolding signature_result
  validate_all trust [] = []
  validate_all trust (sig ∷ rest) =
      signature_result sig (P.validate_signature trust sig) ∷ validate_all trust rest

  count_results : List SignatureResult → ℕ
  count_results [] = zero
  count_results (r ∷ rest) = suc (count_results rest)

  unfoldable pub verdict : Option (List String) → List SignatureResult → Verification
  unfolding all_rows count_results
  verdict trust results = record {
    is_valid = all_rows (λ r. r.bottom_line) results;
    error = none;
    signatures = results;
    signature_count = some (count_results results);
    trust_store_configured = is_some trust;
  }

  unfoldable pub verify_signatures : List String → Action Verification
  unfolding load_trust_store validate_all verdict
  verify_signatures [] = pure (not_verified "No signatures found in PDF")
  verify_signatures (sig ∷ rest) = do
    trust ← load_trust_store
    pure (verdict trust (validate_all trust (sig ∷ rest)))

  -- Never raises.
  unfoldable pub verify_signed_pdf : String → Action Verification
  unfolding verify_signatures
  verify_signed_pdf pdf =
      try_except (do sigs ← lift (P.embedded_signatures pdf); verify_signatures sigs)
        (λ e. pure (not_verified (text_of e)))
