-- ===== src/Engine.antt =====
-- davinci/engine.py: the plan-and-execute loop.
pub mod Defs
pub mod Monad
pub mod History
pub mod Step
pub mod Loop
pub mod Entry
pub mod Spending
pub mod Charges
pub mod Termination
pub mod Ending
pub mod Bounds
pub mod Gate
pub mod Success
pub mod Roles
pub mod Offline
pub mod Retries
mod Samples
