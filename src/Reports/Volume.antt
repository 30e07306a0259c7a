-- ===== src/Reports/Volume.antt =====
-- report/dsc_sign_volume/dsc_sign_volume.py.
use mathlib.Core.List.{reverse}
use frappe_dsc.Base.{
  ℕ, ◌+◌, String, ◌==◌, Bool, true, false, ◌&&◌, Option, none, some, List, leb, eqb, rows_where,
  map, if◌then◌else◌,
}
use frappe_dsc.Site.{Status, same_status, SigningRequest, Db}
use frappe_dsc.Reports.Grouping.{
  Filters, date, at_least, at_most, matches, grouped, ordered, take, Chart,
}

pub record VolumeRow : Type 0 where
  pub day : ℕ
  pub source_doctype : String
  pub profile : Option String
  pub total : ℕ
  pub signed : ℕ
  pub pending : ℕ
  pub failed : ℕ
  pub cancelled : ℕ

unfoldable pub in_volume : Filters → SigningRequest → Bool
in_volume filters r =
    at_least filters.from_date (date r.creation)
    && at_most filters.to_date (date r.creation)
    && matches filters.profile r.profile
    && matches filters.source_doctype (some r.source_doctype)

-- NULL is in one group with NULL.
abbrev pub same_profile : Option String → Option String → Bool
same_profile none none = true
same_profile (some a) (some b) = a == b
same_profile _ _ = false

unfoldable pub same_volume_group : SigningRequest → VolumeRow → Bool
same_volume_group r g =
    eqb (date r.creation) g.day
    && r.source_doctype == g.source_doctype
    && same_profile r.profile g.profile

-- `CASE WHEN status = … THEN 1 ELSE 0 END`
abbrev pub one_if : Status → Status → ℕ
one_if status wanted = if same_status status wanted then 1 else 0

unfoldable pub first_volume : SigningRequest → VolumeRow
first_volume r = record {
  day = date r.creation;
  source_doctype = r.source_doctype;
  profile = r.profile;
  total = 1;
  signed = one_if r.status Status.signed;
  pending = one_if r.status Status.pending;
  failed = one_if r.status Status.failed;
  cancelled = one_if r.status Status.cancelled;
}

unfoldable pub more_volume : SigningRequest → VolumeRow → VolumeRow
more_volume r g = record g {
  total = g.total + 1;
  signed = g.signed + one_if r.status Status.signed;
  pending = g.pending + one_if r.status Status.pending;
  failed = g.failed + one_if r.status Status.failed;
  cancelled = g.cancelled + one_if r.status Status.cancelled;
}

-- `ORDER BY day DESC`
unfoldable pub newer_day : VolumeRow → VolumeRow → Bool
newer_day g f = leb f.day g.day

unfoldable pub sign_volume : Filters → Db → List VolumeRow
unfolding in_volume
sign_volume filters d =
    ordered newer_day (
      grouped same_volume_group first_volume more_volume
        (rows_where (in_volume filters) d.requests))

-- The thirty newest rows, the oldest of them first.
unfoldable pub volume_chart : List VolumeRow → Chart ℕ
volume_chart rows = record {
  labels = reverse (map (λ r. r.day) (take 30 rows));
  bars = reverse (map (λ r. r.signed) (take 30 rows));
}
