-- ===== src/Types/EventType.antt =====
-- `event_type` (src/zk/types.hpp, src/zk/types.cpp). Any `int` may be cast to the enumeration, so a value
-- is an integer.
use zookeeper_cpp.Base.{ℤ, pos, neg, ◌++◌, ◌==ℤ◌, if◌then◌else◌, Bytes, codes, show_ℤ}

abbrev pub EventType : Type 0
EventType = ℤ

abbrev pub error : EventType
error = pos 0

abbrev pub created : EventType
created = pos 1

abbrev pub erased : EventType
erased = pos 2

abbrev pub changed : EventType
changed = pos 3

abbrev pub child : EventType
child = pos 4

abbrev pub session : EventType
session = neg 1

abbrev pub not_watching : EventType
not_watching = neg 2

-- `operator<<`; `to_string` is the same text.
unfoldable pub to_string : EventType → Bytes
to_string self =
    if self ==ℤ error
    then codes "error"
    else if self ==ℤ created
    then codes "created"
    else if self ==ℤ erased
    then codes "erased"
    else if self ==ℤ changed
    then codes "changed"
    else if self ==ℤ child
    then codes "child"
    else if self ==ℤ session
    then codes "session"
    else if self ==ℤ not_watching
    then codes "not_watching"
    else codes "event_type(" ++ show_ℤ self ++ codes ")"
