-- ===== src/Server/Registry.antt =====
-- `package_registry` (src/zk/server/package_registry.cpp). A registration is the version that it names,
-- and the registry is locked by each operation. A class path is its list of packages.
use zookeeper_cpp.Base.{
  ℕ, Bool, true, false, List, [], ◌∷◌, Option, none, some, ◌≡◌, refl, inl, inr, Bool-cases, Bytes,
  codes, length, none-some, sym,
}
use zookeeper_cpp.Acl.Order.{less_text_irrefl}
use zookeeper_cpp.Acl.Rule.{less_text}
use zookeeper_cpp.Error.Exn.{invalid_argument}
use zookeeper_cpp.Error.Result.{Result, ok, err}
use zookeeper_cpp.Server.Ordered.{insert, lookup, erase}

abbrev pub Classpath : Type 0
Classpath = List Bytes

abbrev pub Registry : Type 0
Registry = List (Bytes × Classpath)

register_found : Bytes → Classpath → Registry → Option Classpath → Result (Registry × Bytes)
register_found version packages registry none =
    ok (insert less_text version packages registry, version)
register_found version packages registry (some found) =
    err (invalid_argument (codes " is already registered"))

-- `register_classpath_server`: the registry and the registration. The message of the exception is made
-- of `version` after the move, which leaves an unspecified text: here the empty one.
unfoldable pub register_classpath_server : Bytes → Classpath → Registry → Result (Registry × Bytes)
unfolding register_found
register_classpath_server version packages registry =
    register_found version packages registry (lookup less_text version registry)

is_some : Option Classpath → Bool
is_some none = false
is_some (some c) = true

-- `unregister_server` of a registration, and whether there was one; its destructor calls it too.
unfoldable pub unregister_server : Bytes → Registry → Registry × Bool
unfolding is_some
unregister_server name registry =
    (erase less_text name registry, is_some (lookup less_text name registry))

unfoldable pub size : Registry → ℕ
size registry = length registry

-- `find_newest_classpath`: the last entry in the order of the texts.
unfoldable pub find_newest_classpath : Registry → Option Classpath
find_newest_classpath [] = none
find_newest_classpath ((v, c) ∷ []) = some c
find_newest_classpath ((v, c) ∷ p ∷ ps) = find_newest_classpath (p ∷ ps)

erase-insert :
    (k : Bytes) (c : Classpath) (ps : Registry)
    → lookup less_text k ps ≡ none
    → erase less_text k (insert less_text k c ps) ≡ ps
unfolding erase insert lookup
erase-insert k c [] e = rw (less_text_irrefl k) refl
erase-insert k c ((l, b) ∷ ps) e = elim (Bool-cases (less_text k l)) [
  | inl before ↦ rw (before, less_text_irrefl k) refl
  | inr after ↦ elim (Bool-cases (less_text l k)) [
    | inl later ↦
        rw (after, later) (rw (after, later, erase-insert k c ps (rw (after, later) at e)) refl)
    | inr same ↦ absurd (none-some (sym (rw (after, same) at e)))
  ]
]

lookup-insert :
    (k : Bytes) (c : Classpath) (ps : Registry)
    → lookup less_text k ps ≡ none
    → lookup less_text k (insert less_text k c ps) ≡ some c
unfolding insert lookup
lookup-insert k c [] e = rw (less_text_irrefl k) refl
lookup-insert k c ((l, b) ∷ ps) e = elim (Bool-cases (less_text k l)) [
  | inl before ↦ rw (before, less_text_irrefl k) refl
  | inr after ↦ elim (Bool-cases (less_text l k)) [
    | inl later ↦
        rw (after, later) (rw (after, later, lookup-insert k c ps (rw (after, later) at e)) refl)
    | inr same ↦ absurd (none-some (sym (rw (after, same) at e)))
  ]
]

-- A version that the registry does not have is registered with its class path, and taking the
-- registration back gives the registry of before and says that there was one.
pub unregister-register :
    (version : Bytes) (packages : Classpath) (registry : Registry)
    → lookup less_text version registry ≡ none
    → (with_it : Registry) × (register_classpath_server version packages registry
        ≡ ok (with_it, version))
      × (lookup less_text version with_it ≡ some packages)
      × (unregister_server version with_it ≡ (registry, true))
unfolding register_classpath_server unregister_server
unregister-register version packages registry e =
    let found = lookup-insert version packages registry e in
    (
      insert less_text version packages registry,
      rw e refl,
      found,
      rw (found, erase-insert version packages registry e) refl,
    )
