-- ===== src/Jobs.antt =====
-- The scheduled jobs: cleanup.py, retention.py and cert_expiry.py.
pub mod Sweeping
use frappe_dsc.Base.{
  ℕ, ◌+◌, ◌-◌, ◌/◌, String, ◌<>◌, ◌==◌, Bool, true, false, not, ◌&&◌, ◌||◌, none, some, List, [],
  ◌∷◌, ltb, leb, eqb, or_num, rows_where, if◌then◌else◌,
}
use frappe_dsc.Site.{
  Status, same_status, SigningRequest, Profile, Db, Action, Done, pure, gets, modify, commit, when,
  ◌>>=◌, ◌>>◌, Platform, Context, set_request, queue_mail,
}

unfoldable pub no_rows : {A : Type 0} → List A → Bool
no_rows [] = true
no_rows (a ∷ rest) = false

abbrev pub timeout_of : Db → ℕ
timeout_of d = or_num d.settings.signing_timeout_seconds 180

module _ (ctx : Context) where
  -- In Progress, and not modified for longer than the timeout.
  unfoldable pub is_overdue : ℕ → SigningRequest → Bool
  is_overdue timeout r =
      same_status r.status Status.in_progress && ltb (r.modified + timeout) ctx.now

module _ (P : Platform) (ctx : Context) where
  unfoldable pub timed_out : ℕ → SigningRequest → SigningRequest
  timed_out timeout r = record r {
    status = Status.failed;
    failure_reason = "Signing timed out after " <> P.decimal timeout <> " seconds";
  }

  unfoldable pub expire_all : ℕ → List SigningRequest → Action Done
  unfolding timed_out
  expire_all timeout [] = pure tt
  expire_all timeout (r ∷ rest) =
      set_request ctx r.name (timed_out timeout) >> expire_all timeout rest

  unfoldable pub expire_stale_pending_requests : Action Done
  unfolding is_overdue rows_where expire_all no_rows
  expire_stale_pending_requests = do
    stale ← gets (λ d. rows_where (is_overdue ctx (timeout_of d)) d.requests)
    timeout ← gets timeout_of
    expire_all timeout stale
    when (not (no_rows stale)) commit

  abbrev is_terminal : Status → Bool
  is_terminal t =
      same_status t Status.signed || same_status t Status.failed || same_status t Status.cancelled

  -- Finished, and created before the cutoff.
  unfoldable pub is_purgeable : ℕ → SigningRequest → Bool
  is_purgeable cutoff r = is_terminal r.status && ltb r.created_on cutoff

  unfoldable pub cutoff_of : Db → ℕ
  cutoff_of d = P.years_before (or_num d.settings.retention_years_for_requests 7) ctx.now

  -- `delete_doc`
  unfoldable pub delete_request : String → List SigningRequest → List SigningRequest
  delete_request name [] = []
  delete_request name (r ∷ rest) =
      if r.name == name then delete_request name rest else r ∷ delete_request name rest

  unfoldable pub delete_all : List SigningRequest → Action Done
  unfolding delete_request
  delete_all [] = pure tt
  delete_all (r ∷ rest) =
      modify (λ d. record d { requests = delete_request r.name d.requests }) >> delete_all rest

  unfoldable pub purge_old_requests : Action Done
  unfolding is_purgeable cutoff_of rows_where delete_all no_rows
  purge_old_requests = do
    old ← gets (λ d. rows_where (is_purgeable (cutoff_of d)) d.requests)
    delete_all old
    when (not (no_rows old)) commit

  has_day : List ℕ → ℕ → Bool
  has_day [] n = false
  has_day (d ∷ rest) n = if eqb d n then true else has_day rest n

  -- `(expiry_date - today).days in warning_days`, where a past date is in no list of days.
  unfoldable pub is_due : List ℕ → Profile → Bool
  unfolding has_day
  is_due days p = elim p.certificate_not_after [
    | none ↦ false
    | some t ↦ leb (ctx.now / 86400) (t / 86400) && has_day days (t / 86400 - ctx.now / 86400)
  ]

  unfoldable pub days_left : Profile → ℕ
  days_left p = elim p.certificate_not_after [ none ↦ 0 | some t ↦ t / 86400 - ctx.now / 86400 ]

  unfoldable pub warn_admins : Profile → ℕ → List String → Action Done
  warn_admins p days [] = pure tt
  warn_admins p days (u ∷ rest) =
      queue_mail P (record {
        recipients = u ∷ [];
        subject = "DSC Certificate Expiring in " <> P.decimal days <> " Days — " <> p.profile_name;
        about_request = none;
      })
      >> warn_admins p days rest

  unfoldable pub warn_all : List ℕ → List Profile → Action Done
  unfolding is_due days_left warn_admins
  warn_all days [] = pure tt
  warn_all days (p ∷ rest) =
      when (p.is_active && is_due days p)
        (warn_admins p (days_left p) (P.users_with_role "DSC Administrator"))
      >> warn_all days rest

  unfoldable pub notify_upcoming_expiries : Action Done
  unfolding warn_all
  notify_upcoming_expiries = do
    settings ← gets (λ d. d.settings)
    profiles ← gets (λ d. d.profiles)
    when settings.enable_expiry_warnings (warn_all settings.expiry_warning_days profiles)
