-- ===== src/Process.antt =====
-- The wrappers of system calls (src/zk/server/detail).
pub mod System
pub mod Pipe
pub mod Transfer
pub mod Event
pub mod Subprocess
pub mod Spawn
