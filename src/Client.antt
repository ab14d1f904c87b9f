-- ===== src/Client.antt =====
-- cmd/navmesh-client/main.go: the program that runs on a device.
pub mod Backoff
pub mod Download
mod Tests
