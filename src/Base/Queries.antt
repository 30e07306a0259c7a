-- ===== src/Base/Queries.antt =====
-- What the queries on tables find.
use mathlib.Core.Path.{subst}
use Prim.Native.String.{String}
use mathlib.Core.Logic.{◌⊎◌, inl, inr}
use frappe_dsc.Base.Tests.{Bool-cases}
use frappe_dsc.Base.Rows.{first_where, rows_where, any_row, find_row, Every}
use mathlib.Core.Path.{◌≡◌, refl}
use mathlib.Core.Bool.{Bool, true, false, ◌||◌}
use mathlib.Core.Option.{none, some}
use mathlib.Core.List.{List, [], ◌∷◌, ◌++◌}
use native.Mathlib.Omega.{arith}
use text.Mathlib.Text.{◌==◌}

module _ {A : Type 0} (p : A → Bool) where
  -- The row that is found passes the test, and has what every row has.
  pub first_where_sound :
      (P : A → Type 0) (rows : List A) {a : A}
      → Every P rows
      → first_where p rows ≡ some a
      → (p a ≡ true) × P a
  unfolding first_where
  first_where_sound P [] all h = absurd (ground arith)
  first_where_sound P (b ∷ rest) {a} all h = ground (arith, first_where_sound P rest {a = a} all.1)

  -- It is one of the rows that a filter keeps.
  pub first_where-kept :
      (P : A → Type 0) (rows : List A) {a : A}
      → Every P (rows_where p rows)
      → first_where p rows ≡ some a
      → P a
  unfolding first_where rows_where
  first_where-kept P [] all h = absurd (ground arith)
  first_where-kept P (b ∷ rest) {a} all h = elim (Bool-cases (p b)) [
    | inl passes ↦
        let kept : P b × Every P (rows_where p rest) = rw passes at all in
        let same : b ≡ a = ground arith in subst P same kept.0
    | inr fails ↦ first_where-kept P rest {a = a} (rw fails at all) (rw fails at h)
  ]

  pub first_where-passes : (rows : List A) {a : A} → first_where p rows ≡ some a → p a ≡ true
  unfolding first_where
  first_where-passes [] h = absurd (ground arith)
  first_where-passes (b ∷ rest) {a} h = ground (arith, first_where-passes rest {a = a})

  pub first_where-missing : (rows : List A) → first_where p rows ≡ none → any_row p rows ≡ false
  unfolding first_where any_row
  first_where-missing [] h = refl
  first_where-missing (b ∷ rest) h = ground (arith, first_where-missing rest)

  pub any_row-append : (xs ys : List A) → any_row p (xs ++ ys) ≡ (any_row p xs || any_row p ys)
  unfolding any_row
  any_row-append [] ys = refl
  any_row-append (x ∷ xs) ys = ground (arith, any_row-append xs ys)

  -- The rows that a filter keeps pass the test.
  pub rows_where-Every : (rows : List A) → Every (λ a. p a ≡ true) (rows_where p rows)
  unfolding rows_where
  rows_where-Every [] = tt
  rows_where-Every (a ∷ rest) = ground (arith, rows_where-Every rest)

  -- A new row at the end is found where there was none.
  pub first_where-last :
      (rows : List A) (a : A)
      → first_where p rows ≡ none
      → p a ≡ true
      → first_where p (rows ++ a ∷ []) ≡ some a
  unfolding first_where
  first_where-last [] a missing h = rw h
  first_where-last (b ∷ rest) a missing h = ground (arith, first_where-last rest a)

module _ {A : Type 0} where
  abbrev pub IsIn : A → List A → Type 0
  IsIn a [] = ⊥
  IsIn a (b ∷ rest) = (a ≡ b) ⊎ IsIn a rest

  pub IsIn-rows_where :
      (p : A → Bool) (a : A) (rows : List A) → p a ≡ true → IsIn a rows → IsIn a (rows_where p rows)
  unfolding rows_where
  IsIn-rows_where p a [] passes h = h
  IsIn-rows_where p a (b ∷ rest) passes (inl same) =
      let kept : p b ≡ true = subst (λ x. p x ≡ true) same passes in rw kept (inl same)
  IsIn-rows_where p a (b ∷ rest) passes (inr later) = elim (Bool-cases (p b)) [
    | inl kept ↦ rw kept (inr (IsIn-rows_where p a rest passes later))
    | inr dropped ↦ rw dropped (IsIn-rows_where p a rest passes later)
  ]

  pub IsIn-find_row :
      (key : A → String) (k : String) {a : A} (rows : List A)
      → find_row key k rows ≡ some a
      → IsIn a rows
  unfolding find_row
  IsIn-find_row key k [] h = absurd (ground arith)
  IsIn-find_row key k {a} (b ∷ rest) h = elim (Bool-cases (key b == k)) [
    | inl here ↦ inl (ground arith)
    | inr other ↦ inr (IsIn-find_row key k {a = a} rest (rw other at h))
  ]

  -- A row that passes is enough for the query to find one.
  pub first_where-found :
      (p : A → Bool) {a : A} (rows : List A)
      → IsIn a rows
      → p a ≡ true
      → (b : A) × (first_where p rows ≡ some b)
  unfolding first_where
  first_where-found p (b ∷ rest) (inl same) passes =
      let kept : p b ≡ true = subst (λ x. p x ≡ true) same passes in (b, rw kept refl)
  first_where-found p {a} (b ∷ rest) (inr later) passes = elim (Bool-cases (p b)) [
    | inl kept ↦ (b, rw kept refl)
    | inr dropped ↦
        let found = first_where-found p {a = a} rest later passes in (found.0, rw dropped found.1)
  ]
  first_where-found p [] h passes = elim h [ ]

pub Every-append :
    {A : Type 0} (Q : A → Type 0) (xs ys : List A) → Every Q xs → Every Q ys → Every Q (xs ++ ys)
Every-append Q [] ys hx hy = hy
Every-append Q (x ∷ xs) ys hx hy = (hx.0, Every-append Q xs ys hx.1 hy)

module _ {A : Type 0} (p : A → Bool) where
  pub IsIn-first_where : (rows : List A) {a : A} → first_where p rows ≡ some a → IsIn a rows
  unfolding first_where
  IsIn-first_where [] h = absurd (cc)
  IsIn-first_where (b ∷ rest) {a} h = elim (Bool-cases (p b)) [
    | inl passes ↦ inl (ground arith)
    | inr fails ↦ inr (IsIn-first_where rest (rw fails at h))
  ]

  pub any_row-IsIn : (rows : List A) {a : A} → IsIn a rows → p a ≡ true → any_row p rows ≡ true
  unfolding any_row
  any_row-IsIn [] h passes = elim h [ ]
  any_row-IsIn (b ∷ rest) (inl same) passes =
      let here : p b ≡ true = subst (λ x. p x ≡ true) same passes in rw here refl
  any_row-IsIn (b ∷ rest) (inr later) passes =
      let there = any_row-IsIn rest later passes in ground (arith)

  pub any_row-Every : (rows : List A) → Every (λ a. p a ≡ false) rows → any_row p rows ≡ false
  unfolding any_row
  any_row-Every [] all = refl
  any_row-Every (b ∷ rest) all = rw all.0 (any_row-Every rest all.1)

  pub first_where-none : (rows : List A) → first_where p rows ≡ none → Every (λ a. p a ≡ false) rows
  unfolding first_where
  first_where-none [] h = tt
  first_where-none (b ∷ rest) h = elim (Bool-cases (p b)) [
    | inl passes ↦ let found : some b ≡ none = rw passes at h in absurd (cc)
    | inr fails ↦ (fails, first_where-none rest (rw fails at h))
  ]

  pub IsIn-rows_where_back : (rows : List A) (a : A) → IsIn a (rows_where p rows) → IsIn a rows
  unfolding rows_where
  IsIn-rows_where_back [] a h = h
  IsIn-rows_where_back (b ∷ rest) a h = elim (Bool-cases (p b)) [
    | inl passes ↦
        let there : IsIn a (b ∷ rows_where p rest) = rw passes at h in
        elim there [ inl here ↦ inl here | inr later ↦ inr (IsIn-rows_where_back rest a later) ]
    | inr fails ↦ inr (IsIn-rows_where_back rest a (rw fails at h))
  ]
