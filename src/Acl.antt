-- ===== src/Acl.antt =====
-- Access control lists (src/zk/acl.hpp, src/zk/acl.cpp).
pub mod Permission
pub mod Rule
pub mod Order
pub mod Compare
