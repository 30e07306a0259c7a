-- ===== src/Signing.antt =====
-- api/signing.py: the endpoints of the signing flow.
pub mod Hooks
pub mod Lifecycle
pub mod Progress
pub mod Initiate
pub mod Notices
pub mod Finalize
pub mod Handover
unfoldable pub use Hooks.*
unfoldable pub use Lifecycle.*
unfoldable pub use Progress.*
unfoldable pub use Initiate.*
unfoldable pub use Notices.*
unfoldable pub use Finalize.*
