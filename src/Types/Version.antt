-- ===== src/Types/Version.antt =====
-- `basic_version` and its three kinds (src/zk/types.hpp, src/zk/types.cpp): a 32-bit signed number.
use zookeeper_cpp.Base.{ℤ, neg, ◌++◌, ◌==ℤ◌, if◌then◌else◌, Bytes, codes, show_ℤ}

pub record Version : Type 0 where
  pub value : ℤ

abbrev pub invalid : Version
invalid = record { value = neg 42 }

abbrev pub any : Version
any = record { value = neg 1 }

-- `operator<<` of `version`, `acl_version` and `child_version`, which differ in the word in front.
print_version : Bytes → Version → Bytes
print_version name self =
    name
    ++ codes "("
    ++ (if self.value ==ℤ any.value
        then codes "any"
        else if self.value ==ℤ invalid.value
        then codes "invalid"
        else show_ℤ self.value)
    ++ codes ")"

unfoldable pub to_string : Version → Bytes
unfolding print_version
to_string = print_version (codes "version")

unfoldable pub acl_to_string : Version → Bytes
unfolding print_version
acl_to_string = print_version (codes "acl_version")

unfoldable pub child_to_string : Version → Bytes
unfolding print_version
child_to_string = print_version (codes "child_version")
