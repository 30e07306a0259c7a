-- ===== src/Rules.antt =====
-- e_sign/digital_signature/rule_engine.py.
pub mod Conditions
pub mod Requesting
pub mod Engine
unfoldable pub use Conditions.*
unfoldable pub use Requesting.*
unfoldable pub use Engine.*
