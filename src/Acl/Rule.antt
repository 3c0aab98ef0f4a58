-- ===== src/Acl/Rule.antt =====
-- `acl_rule`, `acl` and the predefined lists of `acls` (src/zk/acl.hpp, src/zk/acl.cpp).
use zookeeper_cpp.Base.{
  Bool, true, false, not, ◌&&◌, ◌||◌, List, [], ◌∷◌, ◌++◌, ◌==◌, ltb, Bytes, codes, equal, join,
}
use zookeeper_cpp.Acl.Permission
use zookeeper_cpp.Acl.Permission.{Permission}

pub record AclRule : Type 0 where
  pub scheme : Bytes
  pub id : Bytes
  pub permissions : Permission

-- `operator<` of `std::string`: by bytes, a prefix first.
unfoldable pub less_text : Bytes → Bytes → Bool
less_text [] [] = false
less_text [] (y ∷ ys) = true
less_text (x ∷ xs) [] = false
less_text (x ∷ xs) (y ∷ ys) = ltb x y || (x == y && less_text xs ys)

-- `operator==`; `operator!=` is its negation.
unfoldable pub rule_equal : AclRule → AclRule → Bool
rule_equal lhs rhs =
    equal lhs.scheme rhs.scheme && equal lhs.id rhs.id && lhs.permissions == rhs.permissions

-- `operator<`, by the comparison of two ties; `<=`, `>` and `>=` are made of it.
unfoldable pub rule_less : AclRule → AclRule → Bool
unfolding less_text
rule_less lhs rhs =
    less_text lhs.scheme rhs.scheme
    || (not (less_text rhs.scheme lhs.scheme)
        && (less_text lhs.id rhs.id
            || (not (less_text rhs.id lhs.id) && ltb lhs.permissions rhs.permissions)))

unfoldable pub rule_to_string : AclRule → Bytes
rule_to_string self =
    codes "("
    ++ self.scheme
    ++ print_id self.id
    ++ codes ", "
    ++ Permission.to_string self.permissions
    ++ codes ")"
  where
    print_id : Bytes → Bytes
    print_id [] = []
    print_id id = codes ":" ++ id

abbrev pub Acl : Type 0
Acl = List AclRule

-- `operator==` of two lists.
unfoldable pub acl_equal : Acl → Acl → Bool
unfolding rule_equal
acl_equal [] [] = true
acl_equal (x ∷ xs) (y ∷ ys) = rule_equal x y && acl_equal xs ys
acl_equal _ _ = false

rules_to_string : Acl → List Bytes
unfolding rule_to_string
rules_to_string [] = []
rules_to_string (x ∷ xs) = rule_to_string x ∷ rules_to_string xs

-- `operator<<` of a list.
unfoldable pub acl_to_string : Acl → Bytes
unfolding rules_to_string
acl_to_string self = codes "[" ++ join (codes ", ") (rules_to_string self) ++ codes "]"

abbrev pub creator_all : Acl
creator_all = record { scheme = codes "auth"; id = []; permissions = Permission.all } ∷ []

abbrev pub open_unsafe : Acl
open_unsafe =
    record { scheme = codes "world"; id = codes "anyone"; permissions = Permission.all } ∷ []

abbrev pub read_unsafe : Acl
read_unsafe =
    record { scheme = codes "world"; id = codes "anyone"; permissions = Permission.read } ∷ []
