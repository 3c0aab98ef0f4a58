-- ===== src/Multi/Op.antt =====
-- `op_type`, `op` and `multi_op` (src/zk/multi.hpp, src/zk/multi.cpp).
use zookeeper_cpp.Base.{List, ◌++◌, Bytes, codes, map, join, ◌≡◌, refl, ◌↔◌}
use zookeeper_cpp.Acl.Rule.{Acl, acl_to_string}
use zookeeper_cpp.Error.Exn.{Exn, logic_error}
use zookeeper_cpp.Error.Result.{Result, ok, err}
use zookeeper_cpp.Types.CreateMode
use zookeeper_cpp.Types.CreateMode.{CreateMode}
use zookeeper_cpp.Types.Version
use zookeeper_cpp.Types.Version.{Version}

pub data OpType : Type 0 where
  check create erase set : OpType

-- `operator<<`; `to_string` is the same text.
unfoldable pub type_to_string : OpType → Bytes
type_to_string check = codes "check"
type_to_string create = codes "create"
type_to_string erase = codes "erase"
type_to_string set = codes "set"

pub record CheckData : Type 0 where
  pub path : Bytes
  pub check : Version

pub record CreateData : Type 0 where
  pub path : Bytes
  pub contents : Bytes
  pub rules : Acl
  pub mode : CreateMode

pub record EraseData : Type 0 where
  pub path : Bytes
  pub check : Version

pub record SetData : Type 0 where
  pub path : Bytes
  pub contents : Bytes
  pub check : Version

-- `op`: its variant.
pub data Op : Type 0 where
  check_op : CheckData → Op
  create_op : CreateData → Op
  erase_op : EraseData → Op
  set_op : SetData → Op

unfoldable pub op_type : Op → OpType
op_type (check_op x) = check
op_type (create_op x) = create
op_type (erase_op x) = erase
op_type (set_op x) = set

-- What `as` throws if the variant has another type.
unfoldable pub bad_type : Bytes → Bytes → OpType → Exn
unfolding type_to_string
bad_type class operation type =
    logic_error
      (codes "Invalid op type for " ++ class ++ operation ++ codes ": " ++ type_to_string type)

bad_op : Bytes → Op → Exn
unfolding bad_type op_type
bad_op operation self = bad_type (codes "op::") operation (op_type self)

unfoldable pub as_check : Op → Result CheckData
unfolding bad_op
as_check (check_op x) = ok x
as_check self = err (bad_op (codes "as_check") self)

unfoldable pub as_create : Op → Result CreateData
unfolding bad_op
as_create (create_op x) = ok x
as_create self = err (bad_op (codes "as_create") self)

unfoldable pub as_erase : Op → Result EraseData
unfolding bad_op
as_erase (erase_op x) = ok x
as_erase self = err (bad_op (codes "as_erase") self)

unfoldable pub as_set : Op → Result SetData
unfolding bad_op
as_set (set_op x) = ok x
as_set self = err (bad_op (codes "as_set") self)

braced : Bytes → Bytes → Bytes
braced a b = codes "{" ++ a ++ codes " " ++ b ++ codes "}"

data_to_string : Op → Bytes
unfolding braced
data_to_string (check_op x) = braced x.path (Version.to_string x.check)
data_to_string (create_op x) =
    codes "{"
    ++ x.path
    ++ codes " "
    ++ CreateMode.to_string x.mode
    ++ codes " "
    ++ acl_to_string x.rules
    ++ codes "}"
data_to_string (erase_op x) = braced x.path (Version.to_string x.check)
data_to_string (set_op x) = braced x.path (Version.to_string x.check)

-- `operator<<`; `to_string` is the same text.
unfoldable pub op_to_string : Op → Bytes
unfolding data_to_string
op_to_string self = type_to_string (op_type self) ++ data_to_string self

-- `operator<<` of `multi_op`, which is a list here.
unfoldable pub multi_op_to_string : List Op → Bytes
multi_op_to_string self = codes "[" ++ join (codes ", ") (map op_to_string self) ++ codes "]"

-- Each accessor succeeds on exactly the operations whose type it names.
pub as-op_type_iff :
    (self : Op)
    → (((x : CheckData) × (as_check self ≡ ok x)) ↔ (op_type self ≡ check))
      × (((x : CreateData) × (as_create self ≡ ok x)) ↔ (op_type self ≡ create))
      × (((x : EraseData) × (as_erase self ≡ ok x)) ↔ (op_type self ≡ erase))
      × (((x : SetData) × (as_set self ≡ ok x)) ↔ (op_type self ≡ set))
unfolding as_check as_create as_erase as_set op_type
as-op_type_iff (check_op x) = (
  ((λ _. refl), λ _. (x, refl)),
  ((λ h. cc (h.1)), λ e. cc e),
  ((λ h. cc (h.1)), λ e. cc e),
  ((λ h. cc (h.1)), λ e. cc e),
)
as-op_type_iff (create_op x) = (
  ((λ h. cc (h.1)), λ e. cc e),
  ((λ _. refl), λ _. (x, refl)),
  ((λ h. cc (h.1)), λ e. cc e),
  ((λ h. cc (h.1)), λ e. cc e),
)
as-op_type_iff (erase_op x) = (
  ((λ h. cc (h.1)), λ e. cc e),
  ((λ h. cc (h.1)), λ e. cc e),
  ((λ _. refl), λ _. (x, refl)),
  ((λ h. cc (h.1)), λ e. cc e),
)
as-op_type_iff (set_op x) = (
  ((λ h. cc (h.1)), λ e. cc e),
  ((λ h. cc (h.1)), λ e. cc e),
  ((λ h. cc (h.1)), λ e. cc e),
  ((λ _. refl), λ _. (x, refl)),
)
