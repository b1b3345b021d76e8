-- ===== src/Planning.antt =====
-- davinci/planning.py: plans, their steps and the life of a step.
pub mod Defs
pub mod Ops
pub mod Numbering
pub mod Status
pub mod Replan
pub mod Edits
pub mod Dicts
mod Samples
