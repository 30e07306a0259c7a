-- ===== src/Reports/Grouping.antt =====
-- `WHERE`, `GROUP BY` and `ORDER BY`.
use frappe_dsc.Base.{
  ℕ, zero, suc, ◌/◌, String, Bool, true, Option, none, some, List, [], ◌∷◌, leb, truthy, get_or,
  is_text, if◌then◌else◌,
}

-- The filters of a report; a date is a number of days.
pub record Filters : Type 0 where
  pub from_date : Option ℕ
  pub to_date : Option ℕ
  pub profile : Option String
  pub source_doctype : Option String

-- `DATE(t)`
abbrev pub date : ℕ → ℕ
date t = t / 86400

abbrev pub at_least : Option ℕ → ℕ → Bool
at_least none day = true
at_least (some from) day = leb from day

abbrev pub at_most : Option ℕ → ℕ → Bool
at_most none day = true
at_most (some to) day = leb day to

-- `column = %(value)s`, if the filter is set.
abbrev pub matches : Option String → Option String → Bool
matches value column = if truthy value then is_text column (get_or value "") else true

module _ {A G : Type 0} (same : A → G → Bool) (start : A → G) (add : A → G → G) where
  unfoldable pub tally : A → List G → List G
  tally a [] = start a ∷ []
  tally a (g ∷ rest) = if same a g then add a g ∷ rest else g ∷ tally a rest

  unfoldable pub grouped : List A → List G
  unfolding tally
  grouped [] = []
  grouped (a ∷ rest) = tally a (grouped rest)

module _ {G : Type 0} (comes_first : G → G → Bool) where
  unfoldable pub insert_ordered : G → List G → List G
  insert_ordered g [] = g ∷ []
  insert_ordered g (f ∷ rest) = if comes_first g f then g ∷ f ∷ rest else f ∷ insert_ordered g rest

  unfoldable pub ordered : List G → List G
  unfolding insert_ordered
  ordered [] = []
  ordered (g ∷ rest) = insert_ordered g (ordered rest)

module _ {A : Type 0} where
  -- `rows[:n]`
  abbrev pub take : ℕ → List A → List A
  take zero xs = []
  take (suc n) [] = []
  take (suc n) (x ∷ xs) = x ∷ take n xs

-- The labels and the values of a bar chart.
pub record Chart (A : Type 0) : Type 0 where
  pub labels : List A
  pub bars : List ℕ
