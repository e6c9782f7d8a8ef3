-- ===== src/Cmd.antt =====
-- cmd: the commands that a user gives by email or by rpc.
pub mod Pattern
pub mod Command
pub mod Table
pub mod Request
pub mod Run
pub mod Laws
