-- ===== src/Storage/Rows.antt =====
-- backend/app/storage/models.py: the columns that the modelled services read or write.
-- A UUID is a number, also where a column holds its text; an instant is the number of microseconds
-- since 1970-01-01 00:00 UTC, which is the resolution of Python's `datetime`.
mod Incidents
mod Policies
mod Actions
mod Runners
mod Investigations
mod Evidence
pub use Incidents.*
pub use Policies.*
pub use Actions.*
pub use Runners.*
pub use Investigations.*
pub use Evidence.*
