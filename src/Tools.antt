-- ===== src/Tools.antt =====
-- Tools that run in containers of their own.
pub mod Statements
pub mod Splitting
mod Samples
