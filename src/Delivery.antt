-- ===== src/Delivery.antt =====
-- The Delivery capability (src/agentplanex/services/delivery).
pub mod Models
pub mod Snapshot
pub mod StageRuns
pub mod Git
pub mod Driver
pub mod Service
