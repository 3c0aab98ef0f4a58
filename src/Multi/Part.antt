-- ===== src/Multi/Part.antt =====
-- `multi_result` and its parts (src/zk/multi.hpp, src/zk/multi.cpp), with the printing of the two results
-- that a part can have (src/zk/results.cpp).
use zookeeper_cpp.Base.{List, ◌++◌, Bytes, codes}
use zookeeper_cpp.Error.Exn.{Exn}
use zookeeper_cpp.Error.Result.{Result, ok, err}
use zookeeper_cpp.Types.Stat
use zookeeper_cpp.Types.Stat.{Stat}
use zookeeper_cpp.Multi.Op.{OpType, create, set, type_to_string, bad_type}

-- The variant of a part.
pub data AnyResult : Type 0 where
  monostate : AnyResult
  create_result : Bytes → AnyResult
  set_result : Stat → AnyResult

pub record Part : Type 0 where
  pub type : OpType
  pub storage : AnyResult

abbrev pub MultiResult : Type 0
MultiResult = List Part

-- The three constructors.
abbrev pub plain_part : OpType → Part
plain_part type = record { type = type; storage = monostate }

abbrev pub create_part : Bytes → Part
create_part res = record { type = create; storage = create_result res }

abbrev pub set_part : Stat → Part
set_part res = record { type = set; storage = set_result res }

bad_part : Bytes → Part → Exn
unfolding bad_type
bad_part operation self = bad_type (codes "multi_result::") operation self.type

create_of : Part → AnyResult → Result Bytes
unfolding bad_part
create_of self (create_result x) = ok x
create_of self _ = err (bad_part (codes "as_create") self)

unfoldable pub as_create : Part → Result Bytes
unfolding create_of
as_create self = create_of self self.storage

set_of : Part → AnyResult → Result Stat
unfolding bad_part
set_of self (set_result x) = ok x
set_of self _ = err (bad_part (codes "as_set") self)

unfoldable pub as_set : Part → Result Stat
unfolding set_of
as_set self = set_of self self.storage

print_create : Result Bytes → Result Bytes
print_create (ok name) = ok (codes "create_result{name=" ++ name ++ codes "}")
print_create (err e) = err e

print_set : Result Stat → Result Bytes
print_set (ok s) = ok (codes "set_result{" ++ Stat.to_string s ++ codes "}")
print_set (err e) = err e

print_as : OpType → Part → Result Bytes
unfolding print_create print_set
print_as create self = print_create (as_create self)
print_as set self = print_set (as_set self)
print_as type self = ok (type_to_string type ++ codes "_result{}")

-- `operator<<` of a part; `to_string` is the same text.
unfoldable pub part_to_string : Part → Result Bytes
unfolding print_as
part_to_string self = print_as self.type self
