-- ===== src/Process/Subprocess.antt =====
-- `subprocess` (src/zk/server/detail/subprocess.cpp): its arguments, its signals, and its termination.
--
-- The process is `none` where the source has the id -1. The system's answers to the calls, in their
-- order, are an argument.
pub mod Ends
use zookeeper_cpp.Base.{
  ℕ, zero, suc, ◌+◌, ◌%◌, ◌^◌, ℤ, pos, negsuc, Bool, true, false, List, [], ◌∷◌, ◌++◌, Option, none,
  some, Bytes, codes, map, ltb, ◌==◌, if◌then◌else◌,
}
use zookeeper_cpp.Error.Exn.{Errno, esrch, system_error}
use zookeeper_cpp.Error.Result.{Result, ok, err}
use zookeeper_cpp.Process.System.{Answer, done, failed}

-- The pointers that `create_subproc` hands to `execvp`: the program, its arguments, and the null one.
unfoldable pub create_subproc : Bytes → List Bytes → List (Option Bytes)
create_subproc program_name args = some program_name ∷ (map some args ++ none ∷ [])

pub data Signal : Type 0 where
  sigterm sigabrt : Signal

abbrev pub is_esrch : Errno → Bool
is_esrch esrch = true
is_esrch _ = false

-- `signal`, from the answer of `kill`.
unfoldable pub signal : Option ℕ → Answer (Unit {0}) → Result Bool
signal none answer = ok false
signal (some pid) (done u) = ok true
signal (some pid) (failed e) = if is_esrch e then ok false else err (system_error e [])

-- The seconds that `terminate` waits before it signals again.
unfoldable pub alarm_time : ℤ → ℕ
alarm_time (negsuc n) = 1
alarm_time (pos n) = if n == 0 then 1 else if ltb 300 n then 300 else n

-- One round of `terminate`: what `kill` and then `waitpid` answer.
pub record Round : Type 0 where
  pub killed : Answer (Unit {0})
  pub waited : Answer ℕ

-- The end of `terminate`: the signals that were sent, in their order, and whether it returned. If it did
-- not, an exception left the `noexcept` function, which ends the program.
pub record Ended : Type 0 where
  pub signals : List Signal
  pub returned : Bool

abbrev pub ends_wait : Answer ℕ → Bool
ends_wait (done pid) = ltb 0 pid
ends_wait (failed e) = false

abbrev pub signal_of : ℕ → Signal
signal_of attempt = if attempt == 1 then sigterm else sigabrt

abbrev pub prepend : Signal → Option Ended → Option Ended
prepend s none = none
prepend s (some e) = some (record { signals = s ∷ e.signals; returned = e.returned })

-- What a round does after its signal, with the rounds that follow.
abbrev pub after_signal : Signal → Result Bool → Answer ℕ → Option Ended → Option Ended
after_signal s (err e) waited rest = some (record { signals = s ∷ []; returned = false })
after_signal s (ok sent) waited rest =
    prepend s (if ends_wait waited then some (record { signals = []; returned = true }) else rest)

-- The loop of `terminate` for a process that runs, from the attempt with this number: `none` if the
-- rounds end before it does.
unfoldable pub terminate_loop : ℕ → ℕ → List Round → Option Ended
unfolding signal
terminate_loop attempt pid [] = none
terminate_loop attempt pid (r ∷ rounds) =
    after_signal (signal_of attempt) (signal (some pid) r.killed) r.waited
      (terminate_loop ((attempt + 1) % 2 ^ 32) pid rounds)

unfoldable pub terminate : Option ℕ → List Round → Option Ended
unfolding terminate_loop
terminate none rounds = some (record { signals = []; returned = true })
terminate (some pid) rounds = terminate_loop 1 pid rounds
