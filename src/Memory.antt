-- ===== src/Memory.antt =====
-- davinci/memory.py: working and session memory, and context compaction.
pub mod Working
pub mod Window
pub mod Compact
pub mod Capped
pub mod Session
pub mod Eviction
pub mod Sessions
pub mod Instructions
pub mod Climb
mod Samples
