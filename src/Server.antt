-- ===== src/Server.antt =====
-- The configuration of a server and its packages (src/zk/server).
pub mod Lines
pub mod Ordered
pub mod Configuration
pub mod Load
pub mod Fits
pub mod Fields
pub mod Loaded
pub mod Setters
pub mod Minimal
pub mod Equality
pub mod Registry
pub mod Classpath
pub mod Run
pub mod Group
