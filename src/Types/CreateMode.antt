-- ===== src/Types/CreateMode.antt =====
-- `create_mode` (src/zk/types.hpp, src/zk/types.cpp), an `unsigned int` of flags.
use Prim.Native.Nat.{bit_and, bit_or}
use zookeeper_cpp.Base.{ℕ, ◌-◌, ◌^◌, Bool, true, false, ◌++◌, [], ◌==◌, if◌then◌else◌, Bytes, codes}

abbrev pub CreateMode : Type 0
CreateMode = ℕ

abbrev pub normal : CreateMode
normal = 0b0000

abbrev pub ephemeral : CreateMode
ephemeral = 0b0001

abbrev pub sequential : CreateMode
sequential = 0b0010

abbrev pub container : CreateMode
container = 0b0100

-- `operator|`.
abbrev pub either : CreateMode → CreateMode → CreateMode
either a b = bit_or a b

-- `operator&`.
abbrev pub both : CreateMode → CreateMode → CreateMode
both a b = bit_and a b

-- `operator~`: the complement of the 32 bits, less what is no flag.
abbrev pub complement : CreateMode → CreateMode
complement a = bit_and (2 ^ 32 - 1 - a) 0b0111

unfoldable pub is_set : CreateMode → CreateMode → Bool
is_set self flags = both self flags == flags

-- A word of `operator<<`, if its flag is set: the text so far, and the flag of `tick`.
print_flag : Bool → Bytes → Bytes × Bool → Bytes × Bool
print_flag set name (os, first) =
    if set then (os ++ (if first then [] else codes "|") ++ name, false) else (os, first)

-- `operator<<`; `to_string` is the same text.
unfoldable pub to_string : CreateMode → Bytes
unfolding is_set print_flag
to_string mode =
    if mode == normal
    then codes "normal"
    else (print_flag (is_set mode container) (codes "container") (
        print_flag (is_set mode sequential) (codes "sequential")
          (print_flag (is_set mode ephemeral) (codes "ephemeral") ([], true)))).0
