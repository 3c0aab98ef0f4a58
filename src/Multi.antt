-- ===== src/Multi.antt =====
-- `op`, `multi_op` and `multi_result` (src/zk/multi.hpp, src/zk/multi.cpp), and the commit of a
-- transaction (src/zk/connection_zk.cpp).
pub mod Partition
pub mod Op
pub mod Make
pub mod Part
pub mod Commit
pub mod Slices
pub mod Arrays
pub mod Encode
pub mod Deliver
