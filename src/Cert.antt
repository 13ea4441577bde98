-- ===== src/Cert.antt =====
-- The package `cert`: where a TLS listener's certificates come from.
pub mod Hello
pub mod KeyTypes
pub mod Load
pub mod Cache
pub mod Dir
pub mod Auto
pub mod Sources
