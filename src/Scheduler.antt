-- ===== src/Scheduler.antt =====
-- The image-locality scheduler: pkg/scheduler.
pub mod Scoring
pub mod Rendezvous
pub mod ImageIndex
pub mod Tests
