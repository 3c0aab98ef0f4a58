-- ===== src/Zk/Results.antt =====
-- The printing of the results (src/zk/results.cpp): `operator<<`, of which `to_string` is the text.
use zookeeper_cpp.Base.{
  Bool, false, List, [], ◌++◌, Option, none, some, Bytes, codes, decimal, length, join,
  if◌then◌else◌,
}
use zookeeper_cpp.Acl.Rule.{acl_to_string}
use zookeeper_cpp.Types.EventType
use zookeeper_cpp.Types.State
use zookeeper_cpp.Types.Stat
use zookeeper_cpp.Types.Stat.{Stat}
use zookeeper_cpp.Zk.Request.{
  Reply, get_result, get_children_result, exists_result, create_result, set_result, get_acl_result,
  nothing,
}
use zookeeper_cpp.Zk.Watch.{Event}

-- `print_buffer`, for whether the type of a buffer has an `operator<<`.
unfoldable pub print_buffer : Bool → Bytes → Bytes
print_buffer has_print buf = if has_print then buf else codes "size=" ++ decimal (length buf)

-- `print_range` of texts.
unfoldable pub print_range : List Bytes → Bytes
print_range range = codes "[" ++ join (codes ", ") range ++ codes "]"

print_found : Option Stat → Bytes
print_found none = codes "(no)"
print_found (some stat) = Stat.to_string stat

-- The results of the operations. `nothing` is `void` and has no printed form.
unfoldable pub to_string : Bool → Reply → Bytes
unfolding print_buffer print_range print_found
to_string has_print (get_result contents stat) =
    codes "get_result{"
    ++ print_buffer has_print contents
    ++ codes " "
    ++ Stat.to_string stat
    ++ codes "}"
to_string has_print (get_children_result children parent_stat) =
    codes "get_children_result{"
    ++ print_range children
    ++ codes " parent="
    ++ Stat.to_string parent_stat
    ++ codes "}"
to_string has_print (exists_result stat) = codes "exists_result{" ++ print_found stat ++ codes "}"
to_string has_print (create_result name) = codes "create_result{name=" ++ name ++ codes "}"
to_string has_print (set_result stat) = codes "set_result{" ++ Stat.to_string stat ++ codes "}"
to_string has_print (get_acl_result rules stat) =
    codes "get_acl_result{" ++ acl_to_string rules ++ codes " " ++ Stat.to_string stat ++ codes "}"
to_string has_print nothing = []

unfoldable pub event_to_string : Event → Bytes
event_to_string self =
    codes "event{"
    ++ EventType.to_string self.kind
    ++ codes " | "
    ++ State.to_string self.state
    ++ codes "}"

-- The results of the three watches, by their initial result.
unfoldable pub watch_to_string : Bool → Bytes → Stat → Bytes
unfolding to_string
watch_to_string has_print contents stat =
    codes "watch_result{initial=" ++ to_string has_print (get_result contents stat) ++ codes "}"

unfoldable pub watch_children_to_string : List Bytes → Stat → Bytes
unfolding to_string
watch_children_to_string children parent_stat =
    codes "watch_children_result{initial="
    ++ to_string false (get_children_result children parent_stat)
    ++ codes "}"

unfoldable pub watch_exists_to_string : Option Stat → Bytes
unfolding to_string
watch_exists_to_string stat =
    codes "watch_exists_result{initial=" ++ to_string false (exists_result stat) ++ codes "}"
