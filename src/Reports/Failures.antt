-- ===== src/Reports/Failures.antt =====
-- report/dsc_failure_reasons/dsc_failure_reasons.py. `GROUP BY failure_reason` goes by the column of
-- the table, which SQL prefers to the alias of the same name.
use Prim.Native.Char.{code}
use frappe_dsc.Base.{
  ℕ, ◌+◌, String, ◌==◌, Bool, true, ◌&&◌, ◌||◌, some, List, leb, ltb, eqb, rows_where, map,
  take_text, if◌then◌else◌,
}
use frappe_dsc.Site.{Status, same_status, SigningRequest, Db}
use frappe_dsc.Reports.Grouping.{
  Filters, date, at_least, at_most, matches, grouped, ordered, take, Chart,
}

pub record FailureRow : Type 0 where
  pub failure_reason : String
  pub source_doctype : String
  pub count : ℕ
  pub latest : ℕ

unfoldable pub in_failures : Filters → SigningRequest → Bool
in_failures filters r =
    same_status r.status Status.failed
    && at_least filters.from_date (date r.creation)
    && at_most filters.to_date (date r.creation)
    && matches filters.source_doctype (some r.source_doctype)

unfoldable pub same_failure_group : SigningRequest → FailureRow → Bool
same_failure_group r g =
    r.failure_reason == g.failure_reason && r.source_doctype == g.source_doctype

unfoldable pub first_failure : SigningRequest → FailureRow
first_failure r = record {
  failure_reason = r.failure_reason;
  source_doctype = r.source_doctype;
  count = 1;
  latest = r.modified;
}

unfoldable pub more_failure : SigningRequest → FailureRow → FailureRow
more_failure r g = record g {
  count = g.count + 1;
  latest = if ltb g.latest r.modified then r.modified else g.latest;
}

-- `ORDER BY count DESC, latest DESC`
unfoldable pub more_frequent : FailureRow → FailureRow → Bool
more_frequent g f = ltb f.count g.count || (eqb f.count g.count && leb f.latest g.latest)

-- `TRIM(t) = ''`
is_blank : String → Bool
is_blank String.[] = true
is_blank (String.◌∷◌ c s) = eqb (code c) 32 && is_blank s

skip_spaces : String → String
skip_spaces String.[] = ""
skip_spaces (String.◌∷◌ c s) = if eqb (code c) 32 then skip_spaces s else String.◌∷◌ c s

drop_last_spaces : String → String
unfolding is_blank
drop_last_spaces String.[] = ""
drop_last_spaces (String.◌∷◌ c s) =
    if is_blank (String.◌∷◌ c s) then "" else String.◌∷◌ c (drop_last_spaces s)

-- The reason that is shown.
unfoldable pub reason_shown : String → String
unfolding is_blank skip_spaces drop_last_spaces
reason_shown t = if is_blank t then "(no reason recorded)" else drop_last_spaces (skip_spaces t)

shown : FailureRow → FailureRow
unfolding reason_shown
shown g = record g { failure_reason = reason_shown g.failure_reason }

unfoldable pub failure_groups : Filters → Db → List FailureRow
unfolding in_failures
failure_groups filters d = ordered more_frequent (
    grouped same_failure_group first_failure more_failure
      (rows_where (in_failures filters) d.requests))

unfoldable pub failure_reasons : Filters → Db → List FailureRow
unfolding failure_groups shown
failure_reasons filters d = map shown (failure_groups filters d)

-- The eight most frequent reasons.
unfoldable pub failure_chart : List FailureRow → Chart String
failure_chart rows = record {
  labels = map (λ r. take_text 60 r.failure_reason) (take 8 rows);
  bars = map (λ r. r.count) (take 8 rows);
}
