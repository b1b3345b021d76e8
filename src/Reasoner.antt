-- ===== src/Reasoner.antt =====
-- davinci/reasoner.py: what the LLM's reasoner makes of a conversation, a group and a reply.
pub mod Group
pub mod Others
pub mod Reply
pub mod Decide
pub mod Reflect
pub mod Closed
mod Samples
