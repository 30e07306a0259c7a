-- ===== src/Gates/Printing/Blocking.antt =====
-- print_gate.py: what download_pdf lets through.
use frappe_dsc.Base.{
  eq_iff, String, ◌≡◌, refl, true, false, none, some, arith, any_row, first_where, find_row,
  rows_where, Every, Bool-cases, Option-cases, inl, inr, ◌⊎◌,
}
use frappe_dsc.Base.Queries.{
  IsIn, IsIn-first_where, first_where-passes, first_where-kept, first_where-missing,
}
use frappe_dsc.Site.{
  Status, same_status, SigningRequest, Db, Site, Rule, File, Error, ok, err, Platform, Context,
}
use frappe_dsc.Gates.Printing.{
  is_signed_for, signed_copy, delegated, blocks_print, signed_file_for, download_pdf,
}

signed_status : (t : Status) → same_status t Status.signed ≡ true → t ≡ Status.signed
signed_status Status.signed h = refl
signed_status _ h = absurd (cc)

-- The request that names the signed file.
pub signed_file_for-request :
    (doctype name : String) (d : Db) {file : String}
    → signed_file_for doctype name d ≡ some file
    → (q : SigningRequest) × IsIn q d.requests
      × (q.source_doctype ≡ doctype)
      × (q.source_name ≡ name)
      × (q.status ≡ Status.signed)
      × (q.signed_file ≡ some file)
unfolding signed_file_for is_signed_for
signed_file_for-request doctype name d {file} h =
    elim (Option-cases (first_where (is_signed_for doctype name) d.requests)) [
      | inl missing ↦ absurd (cc)
      | inr (q, found) ↦
          let passes = first_where-passes (is_signed_for doctype name) d.requests found in
          let signed : same_status q.status Status.signed ≡ true = ground arith in
          (
            q,
            IsIn-first_where (is_signed_for doctype name) d.requests found,
            (eq_iff q.source_doctype doctype).0 (ground arith),
            (eq_iff q.source_name name).0 (ground arith),
            signed_status q.status signed,
            ground arith,
          )
    ]

module _ (P : Platform) (ctx : Context) (doctype name : String) (s : Site) where
  -- Where a rule blocks and every blocking rule is mandatory, a document without a signed file is
  -- not printed: the gate raises and changes nothing.
  pub print_blocked :
      any_row (blocks_print doctype) s.db.rules ≡ true
      → Every (λ r. r.is_mandatory ≡ true) (rows_where (blocks_print doctype) s.db.rules)
      → signed_file_for doctype name s.db ≡ none
      → (e : Error) × (download_pdf P ctx doctype name s ≡ (err e, s))
  unfolding download_pdf
  print_blocked blocked strict unsigned =
      elim (Option-cases (first_where (blocks_print doctype) s.db.rules)) [
        | inl free ↦
            absurd (cc (first_where-missing (blocks_print doctype) s.db.rules free, blocked))
        | inr (r, e) ↦
            let mandatory : r.is_mandatory ≡ true =
              first_where-kept (blocks_print doctype) (λ q. q.is_mandatory ≡ true) s.db.rules strict
                e in
            elim (Bool-cases (P.has_permission ctx.user doctype (some name) "read")) [
              | inl may ↦ (Error.print_needs_signature doctype, rw (e, may, unsigned, mandatory))
              | inr may_not ↦ (Error.permission_denied doctype name, rw (e, may_not))
            ]
      ]

  -- Bytes of a signed file are served only to a caller who may read that very document, and they are
  -- those of a file that a request of the document names, which is Signed.
  pub print_serves_signed :
      (f : File) {t : Site}
      → download_pdf P ctx doctype name s ≡ (ok (signed_copy f), t)
      → (P.has_permission ctx.user doctype (some name) "read" ≡ true)
        × ((q : SigningRequest) × (file : String) × IsIn q s.db.requests
            × (q.source_doctype ≡ doctype)
            × (q.source_name ≡ name)
            × (q.status ≡ Status.signed)
            × (q.signed_file ≡ some file)
            × (find_row (λ g. g.name) file s.db.files ≡ some f))
  unfolding download_pdf
  print_serves_signed f {t} h =
      elim (Option-cases (first_where (blocks_print doctype) s.db.rules)) [
        | inl free ↦ absurd (ground arith)
        | inr (r, e) ↦ elim (Option-cases (signed_file_for doctype name s.db)) [
          | inl unsigned ↦ absurd (ground arith)
          | inr (file, named) ↦
              let (q, within, of_type, of_name, signed, holds) =
                signed_file_for-request doctype name s.db named in
              (ground arith, (q, file, within, of_type, of_name, signed, holds, ground arith))
        ]
      ]

  -- Frappe's own rendering is reached only where no rule blocks, or the first rule that blocks is
  -- not mandatory and there is no signed file.
  pub print_delegates :
      {t : Site}
      → download_pdf P ctx doctype name s ≡ (ok delegated, t)
      → (any_row (blocks_print doctype) s.db.rules ≡ false)
        ⊎ ((r : Rule) × (first_where (blocks_print doctype) s.db.rules ≡ some r)
            × (r.is_mandatory ≡ false)
            × (signed_file_for doctype name s.db ≡ none)
            × (P.has_permission ctx.user doctype (some name) "read" ≡ true))
  unfolding download_pdf
  print_delegates {t} h = elim (Option-cases (first_where (blocks_print doctype) s.db.rules)) [
    | inl free ↦ inl (first_where-missing (blocks_print doctype) s.db.rules free)
    | inr (r, e) ↦ inr (r, e, ground arith, ground arith, ground arith)
  ]
