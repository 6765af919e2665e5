-- ===== src/Client.antt =====
-- bus.go: the client generation.
pub mod Turns
pub mod Lifecycle
