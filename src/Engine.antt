-- ===== src/Engine.antt =====
-- e_sign/digital_signature/signing_engine.py and signature_anchor.py: the PDF side of a signature.
pub mod Sessions
pub mod Anchor
pub mod Placing
pub mod Stamp
pub mod Trust
mod Phases
unfoldable pub use Sessions.*
unfoldable pub use Anchor.*
unfoldable pub use Placing.*
unfoldable pub use Stamp.*
unfoldable pub use Trust.*
unfoldable pub use Phases.*
