-- ===== src/Sandbox.antt =====
-- davinci/sandbox_core.py: the sandbox VM of a session.
pub mod Ids
pub mod Sharing
pub mod Manager
pub mod Actions
pub mod Confined
pub mod Dispatch
pub mod Tool
mod Samples
