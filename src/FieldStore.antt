-- ===== src/FieldStore.antt =====
-- src/roo_wifi/hal/field_store.cpp: the profile store over a backend of named fields.
pub mod Backend
mod Reads
mod Writes
pub mod WriteLaws
pub mod Reports
pub mod SaveLoad
pub mod Ownership
unfoldable pub use Backend.*
unfoldable pub use Reads.*
unfoldable pub use Writes.*
