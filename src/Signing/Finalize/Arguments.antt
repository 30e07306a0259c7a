-- ===== src/Signing/Finalize/Arguments.antt =====
-- api/signing.py, finalize: its arguments, its answer, and its tests on certificates.
use frappe_dsc.Base.{
  String, ◌==◌, Bool, true, false, not, ◌&&◌, Option, none, some, List, [], ◌∷◌, truthy, get_or,
  same_lower, find_row, if◌then◌else◌,
}
use frappe_dsc.Site.{Status, SigningRequest, Db, Result, ok, err, Platform}
use frappe_dsc.Engine.{SignatureResult, Verification}

-- `cert_chain_der_b64`: missing, a list, or a text that may be JSON.
pub data ChainArgument : Type 0 where
  missing : ChainArgument
  items : List String → ChainArgument
  text : String → ChainArgument

-- The arguments of finalize.
pub record FinalizeCall : Type 0 where
  pub session_id : String
  pub signature_bytes_b64 : String
  pub cert_der_b64 : String
  pub chain : ChainArgument
  pub ocsp_der_b64 : Option String

-- What finalize returns.
pub record FinalizeReply : Type 0 where
  pub status : Status
  pub file_url : String
  pub file_name : String
  pub signing_request : String
  pub verification : Verification

has_items : List String → Bool
has_items [] = false
has_items (c ∷ rest) = true

-- `bool(cert_chain_der_b64)`
unfoldable pub has_chain : ChainArgument → Bool
unfolding has_items
has_chain ChainArgument.missing = false
has_chain (ChainArgument.items cs) = has_items cs
has_chain (ChainArgument.text t) = not (t == "")

module _ (P : Platform) where
  unfoldable pub chain_of : ChainArgument → List String
  chain_of ChainArgument.missing = []
  chain_of (ChainArgument.items cs) = cs
  chain_of (ChainArgument.text t) = elim (P.json_list t) [
    | some cs ↦ cs
    | none ↦ if t == "" then [] else t ∷ []
  ]

  -- The fingerprint of the certificate that the agent presents.
  unfoldable pub presented_fingerprint : String → Result (Option String)
  presented_fingerprint cert = if cert == "" then ok none else elim (P.b64decode cert) [
    | err e ↦ err e
    | ok der ↦ ok (if der == "" then none else some (P.sha256 der))
  ]

-- The fingerprint of the request's profile.
unfoldable pub expected_fingerprint : SigningRequest → Db → Option String
expected_fingerprint r d =
    if truthy r.profile
    then elim (find_row (λ p. p.name) (get_or r.profile "") d.profiles) [
      | none ↦ none
      | some p ↦ p.certificate_fingerprint
    ]
    else none

-- Both are there, and differ in more than the case of letters.
unfoldable pub is_mismatch : Option String → Option String → Bool
is_mismatch expected presented =
    truthy expected
    && truthy presented
    && not (same_lower (get_or expected "") (get_or presented ""))

no_results : List SignatureResult → Bool
no_results [] = true
no_results (r ∷ rest) = false

-- `not is_valid and not signatures`
unfoldable pub is_unsigned : Verification → Bool
unfolding no_results
is_unsigned v = not v.is_valid && no_results v.signatures
