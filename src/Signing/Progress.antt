-- ===== src/Signing/Progress.antt =====
-- api/signing.py: get_signing_status and get_form_actions.
pub mod Recovering
pub mod Reopening
use frappe_dsc.Base.{
  ℕ, ◌+◌, String, ◌==◌, Bool, false, ◌&&◌, List, [], ◌∷◌, leb, or_num, is_text, rows_where, any_row,
  all_rows, if◌then◌else◌,
}
use frappe_dsc.Site.{
  Status, DocumentStatus, same_status, SigningRequest, Action, pure, gets, when, ◌>>=◌, ◌>>◌,
  Context, write_request, write_document,
}

-- The `status` of the answer.
pub data Overall : Type 0 where
  all_signed signature_in_progress signing_failed awaiting_signature not_applicable : Overall

pub record StatusInfo : Type 0 where
  pub status : Overall
  pub signing_requests : List SigningRequest
  pub can_sign : Bool

abbrev pub stale_in_progress_seconds : ℕ
stale_in_progress_seconds = 300

-- `order_by="creation desc"`
unfoldable pub insert_newest : SigningRequest → List SigningRequest → List SigningRequest
insert_newest r [] = r ∷ []
insert_newest r (q ∷ rest) =
    if leb q.creation r.creation then r ∷ q ∷ rest else q ∷ insert_newest r rest

unfoldable pub newest_first : List SigningRequest → List SigningRequest
unfolding insert_newest
newest_first [] = []
newest_first (r ∷ rest) = insert_newest r (newest_first rest)

-- The chain of tests on the statuses.
unfoldable pub overall_status : List SigningRequest → Overall
unfolding any_row all_rows
overall_status rows =
    if all_rows (λ r. same_status r.status Status.signed) rows
    then all_signed
    else if any_row (λ r. same_status r.status Status.in_progress) rows
    then signature_in_progress
    else if any_row (λ r. same_status r.status Status.failed) rows
    then signing_failed
    else if any_row (λ r. same_status r.status Status.pending) rows
    then awaiting_signature
    else not_applicable

module _ (ctx : Context) where
  -- The test on an abandoned attempt.
  unfoldable pub is_stale : SigningRequest → Bool
  is_stale r =
      same_status r.status Status.in_progress
      && leb (r.modified + stale_in_progress_seconds) ctx.now

  -- The body of the loop over the requests: the row, reset if it is stale.
  unfoldable pub recover : String → String → SigningRequest → Action SigningRequest
  unfolding is_stale
  recover doctype docname r =
      if is_stale r
      then (do
        write_request r.name (λ q. record q { status = Status.pending })
        when (doctype == "DSC Document Sign")
            (write_document docname (λ d. record d { status = DocumentStatus.pending }))
        pure (record r { status = Status.pending }))
      else pure r

  unfoldable pub recover_all : String → String → List SigningRequest → Action (List SigningRequest)
  unfolding recover
  recover_all doctype docname [] = pure []
  recover_all doctype docname (r ∷ rest) = do
    q ← recover doctype docname r
    qs ← recover_all doctype docname rest
    pure (q ∷ qs)

  unfoldable pub may_sign : SigningRequest → Bool
  may_sign r = same_status r.status Status.pending && is_text r.expected_signer_user ctx.user

  unfoldable pub status_of : List SigningRequest → StatusInfo
  unfolding overall_status may_sign any_row
  status_of rows = record {
    status = overall_status rows;
    signing_requests = rows;
    can_sign = any_row may_sign rows;
  }

  abbrev no_requests : StatusInfo
  no_requests = record { status = not_applicable; signing_requests = []; can_sign = false }

  -- The part of get_signing_status behind the query.
  unfoldable pub status_or_none : String → String → List SigningRequest → Action StatusInfo
  unfolding recover_all status_of
  status_or_none doctype docname [] = pure no_requests
  status_or_none doctype docname (r ∷ rest) = do
    rows ← recover_all doctype docname (r ∷ rest)
    pure (status_of rows)

  unfoldable pub get_signing_status : String → String → Action StatusInfo
  unfolding rows_where newest_first status_or_none
  get_signing_status doctype docname = do
    all ← gets (λ d. d.requests)
    status_or_none doctype docname (
        newest_first
          (rows_where (λ r. r.source_doctype == doctype && r.source_name == docname) all))

  unfoldable pub get_form_actions : String → String → Action (StatusInfo × ℕ)
  unfolding get_signing_status
  get_form_actions doctype docname = do
    info ← get_signing_status doctype docname
    settings ← gets (λ d. d.settings)
    pure (info, or_num settings.agent_listen_port 4645)
