-- ===== src/Gates.antt =====
-- e_sign/digital_signature/print_gate.py and email_gate.py.
pub mod Printing
pub mod Emailing
unfoldable pub use Printing.*
unfoldable pub use Emailing.*
