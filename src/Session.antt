-- ===== src/Session.antt =====
-- The sessions of the gateway.
pub mod Store
pub mod History
pub mod Listing
pub mod Operations
pub mod Tests
