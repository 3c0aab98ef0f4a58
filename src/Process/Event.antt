-- ===== src/Process/Event.antt =====
-- `event_handle` (src/zk/server/detail/event_handle.cpp), from the answers of the system.
use zookeeper_cpp.Base.{ℕ, Bool, true, false, codes, if◌then◌else◌}
use zookeeper_cpp.Error.Exn.{Errno, eagain, system_error}
use zookeeper_cpp.Error.Result.{Result, ok, err}
use zookeeper_cpp.Process.System.{Answer, done, failed}

abbrev is_eagain : Errno → Bool
is_eagain eagain = true
is_eagain _ = false

-- `notify_one`, from the answer of the system's `write`. A full counter is no error.
unfoldable pub notify_one : Answer ℕ → Result (Unit {0})
notify_one (done n) = ok tt
notify_one (failed e) =
    if is_eagain e then ok tt else err (system_error e (codes "event_handle::notify_one()"))

-- `try_wait`, from the answer of the system's `read`.
unfoldable pub try_wait : Answer ℕ → Result Bool
try_wait (done n) = ok true
try_wait (failed e) =
    if is_eagain e then ok false else err (system_error e (codes "event_handle::try_wait()"))
