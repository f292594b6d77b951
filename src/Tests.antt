-- ===== src/Tests.antt =====
-- Runs of the theorems on concrete inputs.
mod Data
mod Settings
mod Fields
mod Radio
mod Station
mod Prefs
