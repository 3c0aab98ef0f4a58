-- ===== src/Types.antt =====
-- The plain types of src/zk/types.hpp: enumerations, versions, and the metadata of an entry.
pub mod EventType
pub mod State
pub mod CreateMode
pub mod Version
pub mod Stat
pub mod StrongId
