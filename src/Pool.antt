-- ===== src/Pool.antt =====
-- Warm pools: pkg/gateway/pool_policy.go, pool_index.go and pool_autoscaler.go.
pub mod Snapshot
pub mod Selector
pub mod Index
pub mod Autoscaler
pub mod Queue
pub mod Planner
pub mod Listing
pub mod Lifecycle
pub mod Gc
pub mod Tests
