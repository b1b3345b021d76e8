-- ===== src/Permissions.antt =====
-- davinci/permissions.py: risk tiers, permission modes, glob rules and guardrails.
pub mod Defs
pub mod Guardrails
pub mod Check
pub mod Layers
pub mod Modes
pub mod Shell
mod Samples
