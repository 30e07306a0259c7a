-- ===== src/Reports.antt =====
-- e_sign/digital_signature/report: the queries of the three reports, as the database answers them.
-- A group is what the rows of one key give; texts are the same if their characters are.
mod Grouping
mod Volume
mod Failures
mod Durations
pub mod Counting
unfoldable pub use Grouping.*
unfoldable pub use Volume.*
unfoldable pub use Failures.*
unfoldable pub use Durations.*
