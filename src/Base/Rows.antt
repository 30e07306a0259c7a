-- ===== src/Base/Rows.antt =====
-- Tables as lists of rows: the queries and updates that the code makes, and their laws.
use Prim.Native.String.{String}
use mathlib.Core.Path.{◌≡◌, refl}
use mathlib.Core.Logic.{◌≢◌}
use mathlib.Core.Bool.{Bool, true, false}
use mathlib.Core.Option
use mathlib.Core.Option.{Option, none, some}
use mathlib.Core.List.{List, [], ◌∷◌}
use native.Mathlib.Omega.{arith}
use text.Mathlib.Text.{◌==◌}
use text.Mathlib.TextEquality.{eq_iff}
use text.Mathlib.TextPositions.{eq_refl}
use frappe_dsc.Base.Tests.{if◌then◌else◌}

module _ {A : Type 0} where
  -- The first row that passes a test, as `get_value` and `exists` give it.
  unfoldable pub first_where : (A → Bool) → List A → Option A
  first_where p [] = none
  first_where p (a ∷ rest) = if p a then some a else first_where p rest

  -- `get_all` with a filter.
  unfoldable pub rows_where : (A → Bool) → List A → List A
  rows_where p [] = []
  rows_where p (a ∷ rest) = if p a then a ∷ rows_where p rest else rows_where p rest

  unfoldable pub any_row : (A → Bool) → List A → Bool
  any_row p [] = false
  any_row p (a ∷ rest) = if p a then true else any_row p rest

  unfoldable pub all_rows : (A → Bool) → List A → Bool
  all_rows p [] = true
  all_rows p (a ∷ rest) = if p a then all_rows p rest else false

  -- A predicate of every row.
  abbrev pub Every {ℓ} : (A → Type ℓ) → List A → Type ℓ
  Every P [] = Unit
  Every P (a ∷ rest) = P a × Every P rest

module _ {A : Type 0} (key : A → String) where
  unfoldable pub find_row : String → List A → Option A
  find_row k [] = none
  find_row k (a ∷ rest) = if key a == k then some a else find_row k rest

  unfoldable pub update_row : String → (A → A) → List A → List A
  update_row k f [] = []
  update_row k f (a ∷ rest) = if key a == k then f a ∷ rest else a ∷ update_row k f rest

  -- An update of the row of one name is seen under that name, and under no other.
  pub find_row-update_row :
      (k j : String) (f : A → A) (rows : List A)
      → ((a : A) → key a ≡ k → key (f a) ≡ k)
      → find_row j (update_row k f rows)
        ≡ (if k == j then Option.map f (find_row k rows) else find_row j rows)
  unfolding find_row update_row
  find_row-update_row k j f [] keep = ground arith
  find_row-update_row k j f (a ∷ rest) keep = ground (
    arith,
    keep a,
    eq_iff k j,
    eq_iff (key a) k,
    eq_iff (key a) j,
    eq_iff (key (f a)) j,
    find_row-update_row k j f rest keep,
  )

  -- A row that is found has the name that was asked for.
  pub key-find_row : (k : String) {a : A} (rows : List A) → find_row k rows ≡ some a → key a ≡ k
  unfolding find_row
  key-find_row k [] h = absurd (ground arith)
  key-find_row k {a} (b ∷ rest) h = ground (arith, eq_iff (key b) k, key-find_row k {a = a} rest)

  pub update_row-found :
      (k : String) (f : A → A) (rows : List A) {a : A}
      → ((a : A) → key a ≡ k → key (f a) ≡ k)
      → find_row k rows ≡ some a
      → find_row k (update_row k f rows) ≡ some (f a)
  update_row-found k f rows keep h = rw (find_row-update_row k k f rows keep, eq_refl k, h)

  pub update_row-missing :
      (k : String) (f : A → A) (rows : List A) → find_row k rows ≡ none → update_row k f rows ≡ rows
  unfolding find_row update_row
  update_row-missing k f [] h = refl
  update_row-missing k f (a ∷ rest) h = ground (arith, update_row-missing k f rest)

  -- The other rows stay.
  pub update_row-other :
      (k j : String) (f : A → A) (rows : List A)
      → ((a : A) → key a ≡ k → key (f a) ≡ k)
      → k ≢ j
      → find_row j (update_row k f rows) ≡ find_row j rows
  update_row-other k j f rows keep ne =
      rw (find_row-update_row k j f rows keep) (ground (arith, eq_iff k j))
