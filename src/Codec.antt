-- ===== src/Codec.antt =====
-- src/roo_wifi/hal/field_store.cpp: the storage format. Writer and Reader, the encoders and
-- decoders of profiles and secrets, and the field keys.
pub mod Writing
pub mod Reading
pub mod Keys
pub mod Layout
pub mod RoundTrip
pub mod Canonical
pub mod KeyLaws
