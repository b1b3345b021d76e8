-- ===== src/Registry.antt =====
-- davinci/mcp.py: tool descriptors, the registry and its search.
pub mod Defs
pub mod Search
pub mod Hits
mod Samples
