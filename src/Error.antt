-- ===== src/Error.antt =====
-- The error codes, their classification (src/zk/error.hpp) and the exceptions that they become
-- (src/zk/error.cpp).
pub mod Code
pub mod Exn
pub mod Kinds
pub mod Classes
pub mod Result
