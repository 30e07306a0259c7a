-- ===== src/Jobs/Sweeping.antt =====
-- cleanup.py and retention.py: which requests a job touches, and how.
use mathlib.Core.Option
use frappe_dsc.Base.{
  ℕ, String, ◌==◌, ◌≡◌, refl, ◌∙◌, ap, Bool, true, false, not, ◌&&◌, Option, none, List, [], ◌∷◌,
  arith, find_row, any_row, rows_where, eq_iff, if◌then◌else◌,
}
use frappe_dsc.Site.{Site, SigningRequest, ok, commit, when, Platform, Context, request_at}
use frappe_dsc.Jobs.{
  no_rows, timed_out, is_purgeable, cutoff_of, delete_request, delete_all, purge_old_requests,
}

-- The row of a request that timed out.
abbrev pub expired_row : Platform → Context → ℕ → SigningRequest → SigningRequest
expired_row P ctx timeout r = record (timed_out P ctx timeout r) { modified = ctx.now }

commit_if : (c : Bool) (s : Site) → ((when c commit s).0 ≡ ok tt) × ((when c commit s).1.db ≡ s.db)
commit_if true s = (refl, refl)
commit_if false s = (refl, refl)

abbrev is_named : String → SigningRequest → Bool
is_named j r = r.name == j

any_row-rows_where :
    (j : String) (p : SigningRequest → Bool) (rows : List SigningRequest)
    → any_row (is_named j) (rows_where p rows) ≡ any_row (λ r. r.name == j && p r) rows
unfolding any_row rows_where
any_row-rows_where j p [] = refl
any_row-rows_where j p (r ∷ rest) = ground (arith, any_row-rows_where j p rest)

find_row-delete_request :
    (P : Platform) (ctx : Context) (name j : String) (rows : List SigningRequest)
    → find_row (λ r. r.name) j (delete_request P ctx name rows)
      ≡ (if name == j then none else find_row (λ r. r.name) j rows)
unfolding find_row delete_request
find_row-delete_request P ctx name j [] = ground arith
find_row-delete_request P ctx name j (r ∷ rest) = ground (
  arith,
  eq_iff name j,
  eq_iff r.name name,
  eq_iff r.name j,
  find_row-delete_request P ctx name j rest,
)

module _ (P : Platform) (ctx : Context) (j : String) where
  delete_all_lem :
      (rows : List SigningRequest) (s : Site)
      → let (r, t) = delete_all P ctx rows s in
        (r ≡ ok tt)
        × (request_at j t ≡ (if any_row (is_named j) rows then none else request_at j s))
        × (t.db.audit_events ≡ s.db.audit_events)
  unfolding delete_all any_row
  delete_all_lem [] s = (refl, refl, refl)
  delete_all_lem (r ∷ rest) s =
      let s' : Site = record s {
        db = record s.db { requests = delete_request P ctx r.name s.db.requests };
      } in
      let (done, there, events) = delete_all_lem rest s' in
      (
        done,
        there ∙ rw (find_row-delete_request P ctx r.name j s.db.requests) (ground arith),
        events,
      )

  -- The purge forgets the finished requests that are older than the retention period, and no other;
  -- the audit events stay.
  pub purge_forgets :
      (s : Site)
      → let (r, t) = purge_old_requests P ctx s in
        (r ≡ ok tt)
        × (request_at j t ≡ (
            if any_row
              (λ r. r.name == j && is_purgeable P ctx (cutoff_of P ctx s.db) r)
              s.db.requests
            then none
            else request_at j s))
        × (t.db.audit_events ≡ s.db.audit_events)
  unfolding purge_old_requests no_rows
  purge_forgets s =
      let old = rows_where (is_purgeable P ctx (cutoff_of P ctx s.db)) s.db.requests in
      let (done, there, events) = delete_all_lem old s in
      let (quiet, same) = commit_if (not (no_rows old)) (delete_all P ctx old s).1 in
      rw done (
        quiet,
        ap (λ d. find_row (λ r. r.name) j d.requests) same
            ∙ there
            ∙ ap (λ c. if c then none else request_at j s)
                (any_row-rows_where j (is_purgeable P ctx (cutoff_of P ctx s.db)) s.db.requests),
        ap (λ d. d.audit_events) same ∙ events,
      )

  module _ (timeout : ℕ) where
    abbrev expired : SigningRequest → SigningRequest
    expired r = record (timed_out P ctx timeout r) { modified = ctx.now }
