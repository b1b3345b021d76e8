-- ===== src/Orchestrator.antt =====
-- caspar_orchestrator.py: the tools that run in containers, the planners that signal them and the
-- master that launches workers.
pub mod Defs
pub mod Client
pub mod Executor
pub mod Names
pub mod Execution
pub mod Groups
pub mod Planner
pub mod Choice
pub mod Plans
pub mod Workers
pub mod Hierarchy
pub mod Machines
pub mod Lifecycle
pub mod Ephemeral
pub mod Metadata
pub mod Discovery
pub mod Described
pub mod Bootstrap
mod Samples
