-- ===== src/Examples.antt =====
-- The theorems at concrete inputs of the code in src/zk.
pub mod Sessions
pub mod Commits
pub mod Configurations
pub mod Connections
pub mod Lists
pub mod Processes
pub mod Ensembles
pub mod Clients
pub mod Races
pub mod Workers
