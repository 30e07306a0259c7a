-- ===== src/System.antt =====
-- The app as a whole: e_sign/hooks.py, the requests that Frappe hands to the app, and what holds
-- after any number of them.
pub mod Hooks
pub mod Keeping
pub mod Serving
pub mod Auditing
