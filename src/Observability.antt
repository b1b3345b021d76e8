-- ===== src/Observability.antt =====
-- davinci/observability.py: budgets, secret masking and the tracer.
pub mod Budget
pub mod Limits
pub mod Patterns
pub mod Substitution
pub mod Mask
pub mod Clean
pub mod Masked
pub mod Tracer
pub mod Counting
mod Samples
