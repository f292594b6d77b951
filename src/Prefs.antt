-- ===== src/Prefs.antt =====
-- src/roo_wifi/hal/prefs: the profile store over the preferences library roo_prefs.
mod Library
mod Operations
pub mod Durable
pub mod Enabled
unfoldable pub use Library.*
unfoldable pub use Operations.*
