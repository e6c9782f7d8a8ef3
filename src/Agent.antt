-- ===== src/Agent.antt =====
-- serverops.go, server.go, bmrpc/client.go: what stands between the users of the agent and bmd.
pub mod Client
pub mod Ops
pub mod Handlers
mod Tests
