-- ===== src/Idmgr.antt =====
-- The identities of the agent.
pub mod Manager
