-- ===== src/Types/Stat.antt =====
-- `stat` (src/zk/types.hpp, src/zk/types.cpp). A time is its milliseconds since the epoch.
use zookeeper_cpp.Base.{ℕ, ℤ, Bool, ◌++◌, ◌==◌, if◌then◌else◌, Bytes, codes, decimal, show_ℤ}
use zookeeper_cpp.Types.Version.{Version}

pub record Stat : Type 0 where
  pub create_transaction : ℕ
  pub modified_transaction : ℕ
  pub child_modified_transaction : ℕ
  pub create_time : ℤ
  pub modified_time : ℤ
  pub data_version : Version
  pub child_version : Version
  pub acl_version : Version
  pub ephemeral_owner : ℕ
  pub data_size : ℕ
  pub children_count : ℕ

-- `stat::is_ephemeral`.
unfoldable pub is_ephemeral : Stat → Bool
is_ephemeral self = self.ephemeral_owner == 0

-- `operator<<`; `to_string` is the same text.
unfoldable pub to_string : Stat → Bytes
unfolding is_ephemeral
to_string self =
    codes "{data_version="
    ++ show_ℤ self.data_version.value
    ++ codes " child_version="
    ++ show_ℤ self.child_version.value
    ++ codes " acl_version="
    ++ show_ℤ self.acl_version.value
    ++ codes " data_size="
    ++ decimal self.data_size
    ++ codes " children_count="
    ++ decimal self.children_count
    ++ codes " ephemeral="
    ++ (if is_ephemeral self then codes "true" else codes "false")
    ++ codes "}"
