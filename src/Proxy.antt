-- ===== src/Proxy.antt =====
-- The package `proxy`.
pub mod Conn
pub mod Header
pub mod Listener
pub mod Handler
