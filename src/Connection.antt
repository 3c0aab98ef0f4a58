-- ===== src/Connection.antt =====
-- The connection: its parameters and connection strings (src/zk/connection.cpp).
pub mod Split
pub mod Query
pub mod RoundTrip
pub mod Plain
pub mod Match
pub mod Params
pub mod Parse
