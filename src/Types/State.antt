-- ===== src/Types/State.antt =====
-- `state` (src/zk/types.hpp, src/zk/types.cpp). Any `int` may be cast to the enumeration, so a value is
-- an integer.
use zookeeper_cpp.Base.{ℤ, pos, neg, ◌++◌, ◌==ℤ◌, if◌then◌else◌, Bytes, codes, show_ℤ}

abbrev pub State : Type 0
State = ℤ

abbrev pub closed : State
closed = pos 0

abbrev pub connecting : State
connecting = pos 1

abbrev pub connected : State
connected = pos 3

abbrev pub read_only : State
read_only = pos 5

abbrev pub expired_session : State
expired_session = neg 112

abbrev pub authentication_failed : State
authentication_failed = neg 113

-- `operator<<`; `to_string` is the same text.
unfoldable pub to_string : State → Bytes
to_string self =
    if self ==ℤ closed
    then codes "closed"
    else if self ==ℤ connecting
    then codes "connecting"
    else if self ==ℤ connected
    then codes "connected"
    else if self ==ℤ read_only
    then codes "read_only"
    else if self ==ℤ expired_session
    then codes "expired_session"
    else if self ==ℤ authentication_failed
    then codes "authentication_failed"
    else codes "state(" ++ show_ℤ self ++ codes ")"
