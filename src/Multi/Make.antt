-- ===== src/Multi/Make.antt =====
-- The functions that make an `op`, one for each type (src/zk/multi.cpp).
use zookeeper_cpp.Base.{Bytes, ◌≡◌, refl}
use zookeeper_cpp.Acl.Rule.{Acl, open_unsafe}
use zookeeper_cpp.Error.Result.{ok}
use zookeeper_cpp.Multi.Op.{Op, check_op, create_op, erase_op, set_op, as_create}
use zookeeper_cpp.Types.CreateMode.{CreateMode}
use zookeeper_cpp.Types.Version.{Version}

unfoldable pub make_check : Bytes → Version → Op
make_check path check = check_op (record { path = path; check = check })

unfoldable pub make_create : Bytes → Bytes → Acl → CreateMode → Op
make_create path contents rules mode =
    create_op (record { path = path; contents = contents; rules = rules; mode = mode })

-- The overload without rules.
unfoldable pub make_create_open : Bytes → Bytes → CreateMode → Op
make_create_open path contents mode = make_create path contents open_unsafe mode

unfoldable pub make_erase : Bytes → Version → Op
make_erase path check = erase_op (record { path = path; check = check })

unfoldable pub make_set : Bytes → Bytes → Version → Op
make_set path contents check = set_op (record { path = path; contents = contents; check = check })

-- An operation made without rules has the open ones.
as_create-make_create_open :
    (path contents : Bytes) (mode : CreateMode)
    → as_create (make_create_open path contents mode)
      ≡ ok (record { path = path; contents = contents; rules = open_unsafe; mode = mode })
unfolding as_create make_create_open make_create
as_create-make_create_open path contents mode = refl
