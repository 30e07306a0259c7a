-- ===== src/Evidence/Completeness.antt =====
-- e_sign/api/evidence.py: who gets a pack, and what it holds.
use mathlib.Core.Path.{subst}
use frappe_dsc.Base.{
  String, ◌==◌, ◌≡◌, refl, ◌∙◌, true, not, inl, inr, List, [], ◌∷◌, ◌++◌, arith, leb, some,
  rows_where, Every, Bool-cases,
}
use frappe_dsc.Base.Queries.{IsIn}
use frappe_dsc.Site.{
  Status, same_status, eq_of_same_status, SigningRequest, Profile, AuditEvent, Site, ok, raise_if,
  Platform, Context, request_at, get_request, get_profile,
}
use frappe_dsc.Site.Inversion.{went_through, or_raise-returns, raise_if-returns, pure-returns}
use frappe_dsc.Evidence.{
  PackEntry, insert_event, by_time, may_read, signed_part, records_part, export_evidence_pack,
}

module _ {A : Type 0} where
  IsIn-append : (a : A) (xs ys : List A) → IsIn a ys → IsIn a (xs ++ ys)
  IsIn-append a [] ys h = h
  IsIn-append a (x ∷ xs) ys h = inr (IsIn-append a xs ys h)

IsIn-insert_event : (e : AuditEvent) (rows : List AuditEvent) → IsIn e (insert_event e rows)
unfolding insert_event
IsIn-insert_event e [] = inl refl
IsIn-insert_event e (f ∷ rest) = elim (Bool-cases (leb e.occurred_at f.occurred_at)) [
  | inl early ↦ rw early (inl refl)
  | inr late ↦ rw late (inr (IsIn-insert_event e rest))
]

stays-IsIn :
    (a e : AuditEvent) (rows : List AuditEvent) → IsIn a rows → IsIn a (insert_event e rows)
unfolding insert_event
stays-IsIn a e [] h = elim h [ ]
stays-IsIn a e (f ∷ rest) h = elim (Bool-cases (leb e.occurred_at f.occurred_at)) [
  | inl early ↦ rw early (inr h)
  | inr late ↦
      rw late (elim h [ inl same ↦ inl same | inr later ↦ inr (stays-IsIn a e rest later) ])
]

stays-Every :
    (e : AuditEvent) (xs rows : List AuditEvent)
    → Every (λ a. IsIn a rows) xs
    → Every (λ a. IsIn a (insert_event e rows)) xs
stays-Every e [] rows all = tt
stays-Every e (x ∷ xs) rows all = (stays-IsIn x e rows all.0, stays-Every e xs rows all.1)

Every-by_time : (rows : List AuditEvent) → Every (λ a. IsIn a (by_time rows)) rows
unfolding by_time
Every-by_time [] = tt
Every-by_time (e ∷ rest) =
    (IsIn-insert_event e (by_time rest), stays-Every e rest (by_time rest) (Every-by_time rest))

module _ (P : Platform) (ctx : Context) (name : String) (s : Site) where
  signed_part-stays :
      (req : SigningRequest) (u : Site) {part : List PackEntry} {t : Site}
      → signed_part req u ≡ (ok part, t)
      → t ≡ u
  unfolding signed_part
  signed_part-stays req u h = ground arith

  trail-IsIn :
      (req : SigningRequest) (profile : Profile) (events : List AuditEvent)
      (signed : List PackEntry)
      → IsIn (PackEntry.audit_trail req events) (signed ++ records_part P ctx req profile events)
  unfolding records_part
  trail-IsIn req profile events signed =
      IsIn-append (PackEntry.audit_trail req events) signed (records_part P ctx req profile events)
        (inl refl)

  -- A pack is exported only for a request that is Signed, to a user who may read it, and holds an
  -- audit trail with every event of the request.
  pub pack_complete :
      {pack : List PackEntry} {t : Site}
      → export_evidence_pack P ctx name s ≡ (ok pack, t)
      → (req : SigningRequest) × (events : List AuditEvent) × (request_at name s ≡ some req)
        × (req.status ≡ Status.signed)
        × (may_read P ctx req ≡ true)
        × IsIn (PackEntry.audit_trail req events) pack
        × Every (λ e. IsIn e events) (rows_where (λ e. e.request == name) s.db.audit_events)
  unfolding export_evidence_pack
  pack_complete h = went_through (get_request name s) h λ req s0 e0 h0.
      went_through (raise_if (not (may_read P ctx req)) _ s0) h0 λ _ s1 e1 h1.
        went_through (raise_if (not (same_status req.status Status.signed)) _ s1) h1 λ _ s2 e2 h2.
          went_through (signed_part req s2) h2 λ signed s3 e3 h3.
            went_through (get_profile req.profile s3) h3 λ profile s4 e4 h4.
              let (found, same0) = or_raise-returns (request_at name s) _ s e0 in
              let (allowed, same1) = raise_if-returns _ _ s0 e1 in
              let (is_signed, same2) = raise_if-returns _ _ s1 e2 in
              let same3 = signed_part-stays req s2 e3 in
              let events = by_time (rows_where (λ e. e.request == name) s3.db.audit_events) in
              (
                req,
                events,
                found,
                eq_of_same_status req.status Status.signed (ground arith),
                ground arith,
                subst (IsIn (PackEntry.audit_trail req events)) (pure-returns _ s4 h4).0
                    (trail-IsIn req profile events signed),
                subst
                    (λ z.
                      Every (λ e. IsIn e events)
                        (rows_where (λ e. e.request == name) z.db.audit_events))
                    (same3 ∙ same2 ∙ same1 ∙ same0)
                    (Every-by_time (rows_where (λ e. e.request == name) s3.db.audit_events)),
              )
