-- ===== src/Reports/Counting.antt =====
-- What the rows of the reports add up to.
use frappe_dsc.Base.{
  ℕ, ◌+◌, ◌*◌, ◌≤◌, ◌≡◌, refl, ◌∙◌, Bool, Bool-cases, inl, inr, List, [], ◌∷◌, arith, rows_where,
  true,
}
use frappe_dsc.Site.{Status, SigningRequest, Db}
use frappe_dsc.Reports.Grouping.{Filters, tally, grouped, insert_ordered, ordered}
use frappe_dsc.Reports.Volume.{
  VolumeRow, in_volume, same_volume_group, one_if, first_volume, more_volume, newer_day,
  sign_volume,
}
use frappe_dsc.Reports.Durations.{DurationRow}

module _ {A : Type 0} (weight : A → ℕ) where
  abbrev pub sum_of : List A → ℕ
  sum_of [] = 0
  sum_of (x ∷ xs) = weight x + sum_of xs

module _ {A G : Type 0} (same : A → G → Bool) (start : A → G) (add : A → G → G) where
  -- A column that counts a weight of the rows.
  module _ (weight : A → ℕ) (column : G → ℕ) (starts : (a : A) → column (start a) ≡ weight a)
      (adds : (a : A) (g : G) → same a g ≡ true → column (add a g) ≡ column g + weight a) where
    sum_of-tally :
        (a : A) (gs : List G)
        → sum_of column (tally same start add a gs) ≡ weight a + sum_of column gs
    unfolding tally
    sum_of-tally a [] = omega (arith, starts a)
    sum_of-tally a (g ∷ rest) = elim (Bool-cases (same a g)) [
      | inl found ↦ rw found (omega (arith, adds a g found))
      | inr other ↦ rw other (omega (arith, sum_of-tally a rest))
    ]

    sum_of-grouped : (xs : List A) → sum_of column (grouped same start add xs) ≡ sum_of weight xs
    unfolding grouped
    sum_of-grouped [] = refl
    sum_of-grouped (x ∷ xs) =
        omega (arith, sum_of-tally x (grouped same start add xs), sum_of-grouped xs)

module _ {G : Type 0} (comes_first : G → G → Bool) where
  sum_of-insert :
      (column : G → ℕ) (g : G) (gs : List G)
      → sum_of column (insert_ordered comes_first g gs) ≡ column g + sum_of column gs
  unfolding insert_ordered
  sum_of-insert column g [] = refl
  sum_of-insert column g (f ∷ rest) = elim (Bool-cases (comes_first g f)) [
    | inl now ↦ rw now refl
    | inr later ↦ rw later (omega (arith, sum_of-insert column g rest))
  ]

  sum_of-ordered :
      (column : G → ℕ) (gs : List G) → sum_of column (ordered comes_first gs) ≡ sum_of column gs
  unfolding ordered
  sum_of-ordered column [] = refl
  sum_of-ordered column (g ∷ rest) =
      omega (arith, sum_of-insert column g (ordered comes_first rest), sum_of-ordered column rest)

-- The average lies between the least and the greatest time.
abbrev pub IsBetween : DurationRow → Type 0
IsBetween g =
    (1 ≤ g.signed_count)
    × (g.min_seconds * g.signed_count ≤ g.sum_seconds)
    × (g.sum_seconds ≤ g.max_seconds * g.signed_count)

module _ (filters : Filters) (d : Db) where
  volume_column :
      (weight : SigningRequest → ℕ) (column : VolumeRow → ℕ)
      → ((r : SigningRequest) → column (first_volume r) ≡ weight r)
      → ((r : SigningRequest) (g : VolumeRow) → column (more_volume r g) ≡ column g + weight r)
      → sum_of column (sign_volume filters d)
        ≡ sum_of weight (rows_where (in_volume filters) d.requests)
  unfolding sign_volume
  volume_column weight column starts adds =
      sum_of-ordered newer_day column (
        grouped same_volume_group first_volume more_volume
          (rows_where (in_volume filters) d.requests))
      ∙ sum_of-grouped same_volume_group first_volume more_volume weight column starts
          (λ r g _. adds r g) (rows_where (in_volume filters) d.requests)

  -- The rows of the volume report count each request that the filters select once, and those that
  -- are Signed, Pending, Failed and Cancelled once in their columns.
  pub volume_adds_up :
      let selected = rows_where (in_volume filters) d.requests in
      let rows = sign_volume filters d in
      (sum_of (λ g. g.total) rows ≡ sum_of (λ r. 1) selected)
      × (sum_of (λ g. g.signed) rows ≡ sum_of (λ r. one_if r.status Status.signed) selected)
      × (sum_of (λ g. g.pending) rows ≡ sum_of (λ r. one_if r.status Status.pending) selected)
      × (sum_of (λ g. g.failed) rows ≡ sum_of (λ r. one_if r.status Status.failed) selected)
      × (sum_of (λ g. g.cancelled) rows ≡ sum_of (λ r. one_if r.status Status.cancelled) selected)
  unfolding first_volume more_volume
  volume_adds_up = (
    volume_column _ (λ g. g.total) (λ r. refl) (λ r g. refl),
    volume_column _ (λ g. g.signed) (λ r. refl) (λ r g. refl),
    volume_column _ (λ g. g.pending) (λ r. refl) (λ r g. refl),
    volume_column _ (λ g. g.failed) (λ r. refl) (λ r g. refl),
    volume_column _ (λ g. g.cancelled) (λ r. refl) (λ r g. refl),
  )
