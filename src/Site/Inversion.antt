-- ===== src/Site/Inversion.antt =====
-- The two ways in which an action ends, and what is known of one that returned.
use mathlib.Core.Path.{subst}
use frappe_dsc.Base.{◌≡◌, refl, Bool, true, false, Option, none, some, ◌⊎◌, inl, inr}
use frappe_dsc.Site.State.{Site}
use frappe_dsc.Site.Errors.{Error}
use frappe_dsc.Site.Actions.{
  Result, ok, err, Action, Done, pure, lift, handle, continue, or_raise, raise_if,
}

module _ {A : Type 0} where
  pub outcome :
      (p : Result A × Site)
      → ((e : Error) × (u : Site) × (p ≡ (err e, u))) ⊎ ((a : A) × (u : Site) × (p ≡ (ok a, u)))
  outcome (ok a, u) = inr (a, u, refl)
  outcome (err e, u) = inl (e, u, refl)

  pub or_raise-returns :
      (o : Option A) (e : Error) (s : Site) {a : A} {t : Site}
      → or_raise o e s ≡ (ok a, t)
      → (o ≡ some a) × (t ≡ s)
  or_raise-returns none e s h = absurd (cc)
  or_raise-returns (some a) e s h = (cc, cc)

  pub pure-returns :
      (x : A) (s : Site) {a : A} {t : Site} → pure x s ≡ (ok a, t) → (x ≡ a) × (s ≡ t)
  pure-returns x s h = (cc, cc)

  pub lift-returns :
      (r : Result A) (s : Site) {a : A} {t : Site} → lift r s ≡ (ok a, t) → (r ≡ ok a) × (t ≡ s)
  lift-returns r s h = (cc, cc)

  -- A handler that raises again lets nothing but the body return.
  pub try_except-returns :
      (p : Result A × Site) (h : Error → Action A) {a : A} {t : Site}
      → handle h p.0 p.1 ≡ (ok a, t)
      → ((e : Error) (u : Site) → (e' : Error) × ((h e u).0 ≡ err e'))
      → p ≡ (ok a, t)
  try_except-returns (ok a, u) g h raises = h
  try_except-returns (err e, u) g h raises = let (e', again) = raises e u in absurd (cc (h, again))

  -- A sequence that returned went through its first action.
  pub went_through :
      {B G : Type 0} (p : Result A × Site) {k : A → Action B} {b : B} {t : Site}
      → continue p.0 k p.1 ≡ (ok b, t)
      → ((a : A) (u : Site) → p ≡ (ok a, u) → k a u ≡ (ok b, t) → G)
      → G
  went_through (ok a, u) h then = then a u refl h
  went_through (err e, u) h then = absurd (cc)

  -- If the action raises, it leaves a state of which `R` holds.
  unfoldable pub RaisesIn : (Site → Type 0) → Result A × Site → Type 0
  RaisesIn R (ok a, t) = Unit
  RaisesIn R (err e, t) = R t

  pub RaisesIn-continue :
      {B : Type 0} (R : Site → Type 0) (p : Result B × Site) (k : B → Action A)
      → R p.1
      → ((b : B) (u : Site) → p ≡ (ok b, u) → R u → RaisesIn R (k b u))
      → RaisesIn R (continue p.0 k p.1)
  unfolding RaisesIn
  RaisesIn-continue R (ok b, u) k here later = later b u refl here
  RaisesIn-continue R (err e, u) k here later = here

  -- What holds of the state that an action leaves, under the name that its run gave it.
  pub at_end :
      (R : Site → Type 0) {p : Result A × Site} {r : Result A} {t : Site} → p ≡ (r, t) → R p.1 → R t
  at_end R e h = subst (λ p. R p.1) e h

pub raise_if-returns :
    (c : Bool) (e : Error) (s : Site) {d : Done} {t : Site}
    → raise_if c e s ≡ (ok d, t)
    → (c ≡ false) × (t ≡ s)
raise_if-returns false e s h = (refl, cc)
raise_if-returns true e s h = absurd (cc)
