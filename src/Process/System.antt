-- ===== src/Process/System.antt =====
-- The answers of system calls, and `close` (src/zk/server/detail/close.cpp).
--
-- The operating system is not part of the program: what it answers to the calls, in their order, is an
-- argument of the definitions that make them.
use zookeeper_cpp.Base.{Bool, true, false, Bytes, codes, if◌then◌else◌}
use zookeeper_cpp.Error.Exn.{Errno, eagain, ewouldblock, eintr, epipe, eio, system_error}
use zookeeper_cpp.Error.Result.{Result, ok, err}

-- A call that succeeds, with what it gives, or one that fails and sets `errno`.
pub data Answer {ℓ} (A : Type ℓ) : Type ℓ where
  done : A → Answer A
  failed : Errno → Answer A

-- `errno == EAGAIN || errno == EWOULDBLOCK`.
abbrev pub is_again : Errno → Bool
is_again eagain = true
is_again ewouldblock = true
is_again _ = false

abbrev pub is_eintr : Errno → Bool
is_eintr eintr = true
is_eintr _ = false

abbrev pub is_epipe : Errno → Bool
is_epipe epipe = true
is_epipe _ = false

abbrev pub close_message : Errno → Bytes
close_message eio = codes "I/O error on close()"
close_message _ = codes "System error on close()"

-- `close` of a descriptor, from the answer of the system's `close`.
unfoldable pub close : Answer (Unit {0}) → Result (Unit {0})
close (done u) = ok tt
close (failed e) = if is_eintr e then ok tt else err (system_error e (close_message e))
