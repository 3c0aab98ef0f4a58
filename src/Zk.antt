-- ===== src/Zk.antt =====
-- The connection over the ZooKeeper C library (src/zk/connection_zk.cpp), and the base class that keeps
-- the state watches (src/zk/connection.cpp).
pub mod Zoo
pub mod Adaptors
pub mod Promise
pub mod Request
pub mod Watch
pub mod Session
pub mod StateWatch
pub mod Open
pub mod Results
pub mod Client
pub mod AclList
