-- ===== src/Acl/Permission.antt =====
-- `permission` (src/zk/acl.hpp, src/zk/acl.cpp), an `unsigned int` of flags.
use Prim.Native.Nat.{bit_and, bit_or}
use zookeeper_cpp.Base.{ℕ, ◌-◌, ◌^◌, Bool, true, false, ◌++◌, [], ◌==◌, if◌then◌else◌, Bytes, codes}

abbrev pub Permission : Type 0
Permission = ℕ

-- `permission::none`.
abbrev pub nothing : Permission
nothing = 0b00000

abbrev pub read : Permission
read = 0b00001

abbrev pub write : Permission
write = 0b00010

abbrev pub create : Permission
create = 0b00100

abbrev pub erase : Permission
erase = 0b01000

abbrev pub admin : Permission
admin = 0b10000

abbrev pub all : Permission
all = 0b11111

-- `operator|`.
abbrev pub either : Permission → Permission → Permission
either a b = bit_or a b

-- `operator&`.
abbrev pub both : Permission → Permission → Permission
both a b = bit_and a b

-- `operator~`: the complement of the 32 bits, less what is no permission.
unfoldable pub complement : Permission → Permission
complement a = both (2 ^ 32 - 1 - a) all

unfoldable pub allows : Permission → Permission → Bool
allows self perform = both self perform == perform

-- A word of `operator<<`, if the permission is given: the text so far, and the flag of `tick`.
unfoldable pub print_flag : Bool → Bytes → Bytes × Bool → Bytes × Bool
print_flag given name (os, first) =
    if given then (os ++ (if first then [] else codes "|") ++ name, false) else (os, first)

-- `operator<<`; `to_string` is the same text.
unfoldable pub to_string : Permission → Bytes
unfolding allows print_flag
to_string self =
    if self == nothing
    then codes "none"
    else if self == all
    then codes "all"
    else (print_flag (allows self admin) (codes "admin") (
        print_flag (allows self erase) (codes "erase") (
          print_flag (allows self create) (codes "create") (
            print_flag (allows self write) (codes "write")
              (print_flag (allows self read) (codes "read") ([], true)))))).0
