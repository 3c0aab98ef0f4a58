-- ===== src/Zk/Zoo.antt =====
-- What src/zk/connection_zk.cpp takes from <zookeeper/zookeeper.h>: its constants, as a parameter, and
-- the structures that it passes.
use zookeeper_cpp.Base.{ℤ, List, ◌≡◌, ◌≢◌, Bytes}
use zookeeper_cpp.Error.Code
use zookeeper_cpp.Types.State

pub record Zoo : Type 0 where
  pub operation_timeout : ℤ
  pub connection_loss : ℤ
  pub invalid_callback : ℤ
  pub invalid_acl : ℤ
  pub bad_arguments : ℤ
  pub session_moved : ℤ
  pub not_connected_state : ℤ
  pub connecting_state : ℤ
  pub associating_state : ℤ

-- Documented facts: two codes and a state have the value of the enumerator that stands for them, and
-- no code that is translated is `ZOK`.
pub record IsDocumented (zoo : Zoo) : Type 0 where
  pub loss_is : zoo.connection_loss ≡ Code.connection_loss
  pub arguments_is : zoo.bad_arguments ≡ Code.invalid_arguments
  pub connecting_is : zoo.connecting_state ≡ State.connecting
  pub timeout_ne_ok : zoo.operation_timeout ≢ Code.ok
  pub callback_ne_ok : zoo.invalid_callback ≢ Code.ok
  pub acl_ne_ok : zoo.invalid_acl ≢ Code.ok
  pub moved_ne_ok : zoo.session_moved ≢ Code.ok

-- `struct Stat`.
pub record RawStat : Type 0 where
  pub czxid : ℤ
  pub mzxid : ℤ
  pub ctime : ℤ
  pub mtime : ℤ
  pub version : ℤ
  pub cversion : ℤ
  pub aversion : ℤ
  pub ephemeral_owner : ℤ
  pub data_length : ℤ
  pub num_children : ℤ
  pub pzxid : ℤ

-- `struct ACL`, its `struct Id` included.
pub record RawAcl : Type 0 where
  pub perms : ℤ
  pub scheme : Bytes
  pub id : Bytes

-- `struct ACL_vector`.
pub record RawAclVector : Type 0 where
  pub count : ℤ
  pub items : List RawAcl
