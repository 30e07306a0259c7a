-- ===== src/Reports/Durations.antt =====
-- report/dsc_average_time_to_sign/dsc_average_time_to_sign.py.
use frappe_dsc.Base.{
  ℕ, ◌+◌, ◌*◌, String, ◌==◌, Bool, true, false, ◌&&◌, Option, none, some, List, leb, ltb, is_some,
  get_or, rows_where, if◌then◌else◌,
}
use frappe_dsc.Site.{Status, same_status, SigningRequest, Db}
use frappe_dsc.Reports.Grouping.{Filters, date, at_least, at_most, matches, grouped, ordered}
use frappe_dsc.Reports.Volume.{same_profile}

-- `avg_seconds` is the quotient of `sum_seconds` and `signed_count`.
pub record DurationRow : Type 0 where
  pub profile : Option String
  pub source_doctype : String
  pub signed_count : ℕ
  pub sum_seconds : ℕ
  pub min_seconds : ℕ
  pub max_seconds : ℕ

-- A comparison with NULL is not true.
abbrev pub signed_within : Filters → Option ℕ → Bool
signed_within filters none = elim filters.from_date [
  | some _ ↦ false
  | none ↦ elim filters.to_date [ some _ ↦ false | none ↦ true ]
]
signed_within filters (some t) =
    at_least filters.from_date (date t) && at_most filters.to_date (date t)

unfoldable pub in_durations : Filters → SigningRequest → Bool
in_durations filters r =
    same_status r.status Status.signed
    && is_some r.sign_duration_seconds
    && signed_within filters r.signed_on
    && matches filters.profile r.profile

abbrev pub seconds_of : SigningRequest → ℕ
seconds_of r = get_or r.sign_duration_seconds 0

unfoldable pub same_duration_group : SigningRequest → DurationRow → Bool
same_duration_group r g = same_profile r.profile g.profile && r.source_doctype == g.source_doctype

unfoldable pub first_duration : SigningRequest → DurationRow
first_duration r = record {
  profile = r.profile;
  source_doctype = r.source_doctype;
  signed_count = 1;
  sum_seconds = seconds_of r;
  min_seconds = seconds_of r;
  max_seconds = seconds_of r;
}

unfoldable pub more_duration : SigningRequest → DurationRow → DurationRow
more_duration r g = record g {
  signed_count = g.signed_count + 1;
  sum_seconds = g.sum_seconds + seconds_of r;
  min_seconds = if ltb (seconds_of r) g.min_seconds then seconds_of r else g.min_seconds;
  max_seconds = if ltb g.max_seconds (seconds_of r) then seconds_of r else g.max_seconds;
}

-- `ORDER BY avg_seconds DESC`, without the division.
unfoldable pub slower : DurationRow → DurationRow → Bool
slower g f = leb (f.sum_seconds * g.signed_count) (g.sum_seconds * f.signed_count)

unfoldable pub average_time_to_sign : Filters → Db → List DurationRow
unfolding in_durations
average_time_to_sign filters d = ordered slower (
    grouped same_duration_group first_duration more_duration
      (rows_where (in_durations filters) d.requests))
