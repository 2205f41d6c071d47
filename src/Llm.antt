-- ===== src/Llm.antt =====
-- core/llm: model providers and the policy on network access.
pub mod Egress
