-- ===== src/Process/Pipe.antt =====
-- `pipe`: opening, closing and redirecting it (src/zk/server/detail/pipe.cpp).
--
-- A descriptor is `none` where the source has -1. An operation that may throw gives the pipe after it
-- and the result.
pub mod Closes
use zookeeper_cpp.Base.{
  ℕ, Bool, true, false, ◌&&◌, List, [], ◌∷◌, ◌++◌, Option, none, some, ◌≡◌, refl, codes, map,
  if◌then◌else◌,
}
use zookeeper_cpp.Error.Exn.{Errno, eintr, system_error}
use zookeeper_cpp.Error.Result.{Result, ok, err}
use zookeeper_cpp.Process.System
use zookeeper_cpp.Process.System.{Answer, done, failed, is_eintr}

pub data OnExec : Type 0 where
  close keep_open : OnExec

-- `on_exec_flags`: whether the flag `O_CLOEXEC` is set.
unfoldable pub on_exec_flags : OnExec → Bool
on_exec_flags OnExec.close = true
on_exec_flags keep_open = false

pub record Pipe : Type 0 where
  pub read_fd : Option ℕ
  pub write_fd : Option ℕ

-- The constructor, from the answer of `pipe2`: the descriptors for reading and writing.
unfoldable pub make_pipe : Answer (ℕ × ℕ) → Result Pipe
make_pipe (done (r, w)) = ok (record { read_fd = some r; write_fd = some w })
make_pipe (failed e) = err (system_error e (codes "Could not create pipe"))

-- An end of a pipe after a call, the descriptors that were given to the system's `close`, and how the
-- call ended.
pub record Closed : Type 0 where
  pub fd : Option ℕ
  pub handed : List ℕ
  pub outcome : Result (Unit {0})

closed_end : ℕ → Result (Unit {0}) → Closed
closed_end fd (ok u) = record { fd = none; handed = fd ∷ []; outcome = ok tt }
closed_end fd (err e) = record { fd = some fd; handed = fd ∷ []; outcome = err e }

-- `close_if_open`. An exception of `close` leaves the descriptor as it is.
unfoldable pub close_if_open : Option ℕ → Answer (Unit {0}) → Closed
unfolding closed_end System.close
close_if_open none answer = record { fd = none; handed = []; outcome = ok tt }
close_if_open (some fd) answer = closed_end fd (System.close answer)

-- A call that closes ends of a pipe: the pipe after it, the descriptors closed, and how it ended.
pub record ClosedPipe : Type 0 where
  pub pipe : Pipe
  pub handed : List ℕ
  pub outcome : Result (Unit {0})

unfoldable pub close_read : Pipe → Answer (Unit {0}) → ClosedPipe
unfolding close_if_open
close_read p answer =
    let c : Closed = close_if_open p.read_fd answer in
    record { pipe = record p { read_fd = c.fd }; handed = c.handed; outcome = c.outcome }

unfoldable pub close_write : Pipe → Answer (Unit {0}) → ClosedPipe
unfolding close_if_open
close_write p answer =
    let c : Closed = close_if_open p.write_fd answer in
    record { pipe = record p { write_fd = c.fd }; handed = c.handed; outcome = c.outcome }

then_close_read : ClosedPipe → Result (Unit {0}) → Answer (Unit {0}) → ClosedPipe
unfolding close_read
then_close_read c (err e) answer = c
then_close_read c (ok u) answer =
    let d : ClosedPipe = close_read c.pipe answer in
    record { pipe = d.pipe; handed = c.handed ++ d.handed; outcome = d.outcome }

-- `close`, from the answers for the write end and for the read end.
unfoldable pub close_pipe : Pipe → Answer (Unit {0}) → Answer (Unit {0}) → ClosedPipe
unfolding then_close_read close_write
close_pipe p for_write for_read =
    let c : ClosedPipe = close_write p for_write in then_close_read c c.outcome for_read

-- `dup3`: its result for the answers of the system, or `none` if they end before it returns.
unfoldable pub dup3 : List (Answer ℕ) → Option (Result ℕ)
dup3 [] = none
dup3 (done fd ∷ answers) = some (ok fd)
dup3 (failed e ∷ answers) =
    let rest = dup3 answers in if is_eintr e then rest else some (err (system_error e []))

subsumed : Pipe → ClosedPipe → Option (Result ℕ) → Option ClosedPipe
subsumed p c none = none
subsumed p c (some (err e)) = some (record { pipe = p; handed = []; outcome = err e })
subsumed p c (some (ok fd)) = some c

-- `subsume_read` and `subsume_write`: the pipe's end is closed once its duplicate is there.
unfoldable pub subsume_read : Pipe → List (Answer ℕ) → Answer (Unit {0}) → Option ClosedPipe
unfolding subsumed dup3 close_read
subsume_read p answers answer = subsumed p (close_read p answer) (dup3 answers)

unfoldable pub subsume_write : Pipe → List (Answer ℕ) → Answer (Unit {0}) → Option ClosedPipe
unfolding subsumed dup3 close_write
subsume_write p answers answer = subsumed p (close_write p answer) (dup3 answers)

-- `close` counts as done: the system's `close` succeeded or was interrupted.
abbrev pub is_closed : Answer (Unit {0}) → Bool
is_closed (done u) = true
is_closed (failed e) = is_eintr e

abbrev pub open_fds : Pipe → List ℕ
open_fds p = opened p.write_fd ++ opened p.read_fd
  where
    opened : Option ℕ → List ℕ
    opened none = []
    opened (some fd) = fd ∷ []

abbrev pub all_closed : Pipe
all_closed = record { read_fd = none; write_fd = none }
