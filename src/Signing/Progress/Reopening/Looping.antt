-- ===== src/Signing/Progress/Reopening/Looping.antt =====
-- api/signing.py, get_signing_status: what the loop over the requests does to their table.
use mathlib.Core.Path.{subst}
use mathlib.Core.Option
use frappe_dsc.Base.{
  String, ◌==◌, ◌≡◌, ◌⊎◌, refl, sym, ap, ◌∙◌, Bool, true, false, some, List, [], ◌∷◌, eq_iff,
  eq_refl, leb, find_row, update_row, find_row-update_row, Bool-cases, inl, inr, if◌then◌else◌,
}
use frappe_dsc.Base.Queries.{IsIn}
use frappe_dsc.Site.{Status, Site, SigningRequest, ok, Context}
use frappe_dsc.Signing.Progress.{insert_newest, newest_first, is_stale, recover, recover_all}

abbrev pub back_to_pending : SigningRequest → SigningRequest
back_to_pending q = record q { status = Status.pending }

IsIn-insert_newest :
    (r : SigningRequest) (rows : List SigningRequest) → IsIn r (insert_newest r rows)
unfolding insert_newest
IsIn-insert_newest r [] = inl refl
IsIn-insert_newest r (q ∷ rest) = elim (Bool-cases (leb q.creation r.creation)) [
  | inl newer ↦ rw newer (inl refl)
  | inr older ↦ rw older (inr (IsIn-insert_newest r rest))
]

stays-IsIn :
    (a r : SigningRequest) (rows : List SigningRequest)
    → IsIn a rows
    → IsIn a (insert_newest r rows)
unfolding insert_newest
stays-IsIn a r [] h = elim h [ ]
stays-IsIn a r (q ∷ rest) h = elim (Bool-cases (leb q.creation r.creation)) [
  | inl newer ↦ rw newer (inr h)
  | inr older ↦
      rw older (elim h [ inl same ↦ inl same | inr later ↦ inr (stays-IsIn a r rest later) ])
]

pub IsIn-newest_first :
    (a : SigningRequest) (rows : List SigningRequest) → IsIn a rows → IsIn a (newest_first rows)
unfolding newest_first
IsIn-newest_first a [] h = h
IsIn-newest_first a (q ∷ rest) (inl same) =
    subst (λ x. IsIn x (insert_newest q (newest_first rest))) (sym same)
      (IsIn-insert_newest q (newest_first rest))
IsIn-newest_first a (q ∷ rest) (inr later) =
    stays-IsIn a q (newest_first rest) (IsIn-newest_first a rest later)

module _ (ctx : Context) where
  -- What the loop does to the table.
  reopened : SigningRequest → List SigningRequest → List SigningRequest
  reopened x rows =
      if is_stale ctx x then update_row (λ r. r.name) x.name back_to_pending rows else rows

  pub reopened_all : List SigningRequest → List SigningRequest → List SigningRequest
  reopened_all [] rows = rows
  reopened_all (x ∷ xs) rows = reopened_all xs (reopened x rows)

  module _ (doctype docname : String) where
    recover_lem :
        (x : SigningRequest) (s : Site)
        → (q : SigningRequest) × (t : Site) × (recover ctx doctype docname x s ≡ (ok q, t))
          × (t.db.requests ≡ reopened x s.db.requests)
    unfolding recover reopened
    recover_lem x s = elim (Bool-cases (is_stale ctx x)) [
      | inl stale ↦ elim (Bool-cases (doctype == "DSC Document Sign")) [
        | inl uploaded ↦ (
          back_to_pending x,
          (recover ctx doctype docname x s).1,
          rw (stale, uploaded) refl,
          rw (stale, uploaded) refl,
        )
        | inr other ↦ (
          back_to_pending x,
          (recover ctx doctype docname x s).1,
          rw (stale, other) refl,
          rw (stale, other) refl,
        )
      ]
      | inr fresh ↦ (x, s, rw fresh refl, rw fresh refl)
    ]

    pub recover_all_lem :
        (xs : List SigningRequest) (s : Site)
        → (qs : List SigningRequest) × (t : Site) × (recover_all ctx doctype docname xs s
            ≡ (ok qs, t))
          × (t.db.requests ≡ reopened_all xs s.db.requests)
    unfolding recover_all reopened_all
    recover_all_lem [] s = ([], s, refl, refl)
    recover_all_lem (x ∷ xs) s =
        let (q, s1, e1, same1) = recover_lem x s in
        let (qs, s2, e2, same2) = recover_all_lem xs s1 in
        (q ∷ qs, s2, rw (e1, e2) refl, same2 ∙ ap (reopened_all xs) same1)

  module _ (r : SigningRequest) where
    -- The request of the name is as it was, or Pending.
    abbrev pub IsAt : SigningRequest → List SigningRequest → Type 0
    IsAt q rows = find_row (λ a. a.name) r.name rows ≡ some q

    written :
        (x q : SigningRequest) (rows : List SigningRequest)
        → IsAt q rows
        → IsAt
            (if x.name == r.name then back_to_pending q else q)
            (update_row (λ a. a.name) x.name back_to_pending rows)
    written x q rows h =
        find_row-update_row (λ a. a.name) x.name r.name back_to_pending rows (λ a k. k)
        ∙ elim (Bool-cases (x.name == r.name)) [
          | inl same ↦ rw same (
              ap (Option.map back_to_pending)
                (ap (λ k. find_row (λ a. a.name) k rows) ((eq_iff x.name r.name).0 same) ∙ h))
          | inr other ↦ rw other h
        ]

    reopened-again :
        (x : SigningRequest) (rows : List SigningRequest)
        → IsAt (back_to_pending r) rows
        → IsAt (back_to_pending r) (reopened x rows)
    unfolding reopened
    reopened-again x rows h = elim (Bool-cases (is_stale ctx x)) [
      | inl stale ↦ rw stale (
          written x (back_to_pending r) rows h
          ∙ ap some (both (x.name == r.name) (back_to_pending r)))
      | inr fresh ↦ rw fresh h
    ]
      where
        both : (c : Bool) (q : SigningRequest) → (if c then q else q) ≡ q
        both true q = refl
        both false q = refl

    reopened-either :
        (x : SigningRequest) (rows : List SigningRequest)
        → IsAt r rows
        → IsAt r (reopened x rows) ⊎ IsAt (back_to_pending r) (reopened x rows)
    unfolding reopened
    reopened-either x rows h = elim (Bool-cases (is_stale ctx x)) [
      | inl stale ↦ elim (Bool-cases (x.name == r.name)) [
        | inl same ↦ inr (rw stale (rw same at (written x r rows h)))
        | inr other ↦ inl (rw stale (rw other at (written x r rows h)))
      ]
      | inr fresh ↦ inl (rw fresh h)
    ]

    reopened-itself :
        (rows : List SigningRequest)
        → is_stale ctx r ≡ true
        → IsAt r rows
        → IsAt (back_to_pending r) (reopened r rows)
    unfolding reopened
    reopened-itself rows stale h = rw stale (rw (eq_refl r.name) at (written r r rows h))

    stays_open :
        (xs rows : List SigningRequest)
        → IsAt (back_to_pending r) rows
        → IsAt (back_to_pending r) (reopened_all xs rows)
    unfolding reopened_all
    stays_open [] rows h = h
    stays_open (x ∷ xs) rows h = stays_open xs (reopened x rows) (reopened-again x rows h)

    pub opens :
        (xs rows : List SigningRequest)
        → is_stale ctx r ≡ true
        → IsIn r xs
        → IsAt r rows
        → IsAt (back_to_pending r) (reopened_all xs rows)
    unfolding reopened_all
    opens [] rows stale found h = elim found [ ]
    opens (x ∷ xs) rows stale (inl same) h = stays_open xs (reopened x rows) (
        subst (λ y. IsAt (back_to_pending r) (reopened y rows)) same (reopened-itself rows stale h))
    opens (x ∷ xs) rows stale (inr later) h = elim (reopened-either x rows h) [
      | inl closed ↦ opens xs (reopened x rows) stale later closed
      | inr open_now ↦ stays_open xs (reopened x rows) open_now
    ]
