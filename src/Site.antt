-- ===== src/Site.antt =====
-- The state that the app works on, the errors that it raises, the code that it calls, and the
-- actions that its handlers are made of.
mod Records
mod State
mod Errors
mod Actions
mod Outside
mod Store
pub mod Inversion
mod Views
pub use Records.*
pub use State.*
unfoldable pub use Errors.*
pub use Actions.*
pub use Outside.*
unfoldable pub use Store.*
pub use Views.*
