-- ===== src/Upgrade.antt =====
-- services/device_upgrade_service.go: upgrades of the software on devices.
pub mod Kind
pub mod Report
pub mod Platform
pub mod Version
pub mod Plan
pub mod Batch
pub mod Offer
pub mod Summary
mod Tests
