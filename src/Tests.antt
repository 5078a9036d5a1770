-- ===== src/Tests.antt =====
-- Runs of the model at concrete inputs: the delivery of a project with two Milestones.
pub mod Computing
pub mod Data
pub mod Decisions
pub mod Stages
pub mod Requests
pub mod Tables
pub mod Plans
pub mod Owner
pub mod Fenced
pub mod Takeover
