-- ===== src/Server/Run/Worker.antt =====
-- The worker of a server: the rest of `run_process` (src/zk/server/server.cpp).
pub mod Stops
use zookeeper_cpp.Base.{
  ℕ, suc, ◌+◌, ◌<◌, ◌^◌, Bool, true, false, List, [], ◌∷◌, ◌++◌, Option, none, some, ◌≡◌, refl, sym,
  ◌∙◌, map, length, All, append_assoc, append-nil, Bytes, arith, if◌then◌else◌,
}
use zookeeper_cpp.Error.Exn.{Exn}
use zookeeper_cpp.Error.Result.{Result, ok, err}
use zookeeper_cpp.Process.Subprocess
use zookeeper_cpp.Process.Subprocess.{Signal, sigterm, sigabrt, Ended, terminate}
use zookeeper_cpp.Process.Subprocess.Ends.{IsTried, IsLast, terminate_lem}
use zookeeper_cpp.Process.System.{Answer, done, failed, is_eintr}
use zookeeper_cpp.Server.Run.{Console, Reads, drained, drain_pipes, wait_for_event}

-- A round of the loop: what the load of `_running` gives, what `select` answers, and how the reads of
-- `drain_pipes` end.
pub record Round : Type 0 where
  pub running : Bool
  pub selected : Answer ℕ
  pub reads : List Reads

-- How the loop ends: as the flag is cleared, or with an exception that leaves the thread.
pub data Looped : Type 0 where
  cleared : Console → Looped
  thrown : Exn → Console → Looped

after_drain : (Console → Option Looped) → Option (Console × Result (Unit {0})) → Option Looped
after_drain next none = none
after_drain next (some (c, err e)) = some (thrown e c)
after_drain next (some (c, ok u)) = next c

after_wait : Console → List Reads → (Console → Option Looped) → Result (Unit {0}) → Option Looped
unfolding after_drain
after_wait c reads next (err e) = some (thrown e c)
after_wait c reads next (ok u) = after_drain next (drain_pipes c reads)

-- The loop: `none` if the rounds, or the reads of one of them, end before it does.
unfoldable pub work : Console → List Round → Option Looped
unfolding after_wait wait_for_event
work c [] = none
work c (r ∷ rounds) =
    if r.running
    then after_wait c r.reads (λ c'. work c' rounds) (wait_for_event r.selected)
    else some (cleared c)

-- The worker has ended: what it has printed, and how `terminate` went; if that did not return, the
-- program is at its end.
pub record Worked : Type 0 where
  pub console : Console
  pub ended : Ended

with_console : Ended → Option (Console × Result (Unit {0})) → Option (Result Worked)
with_console e none = none
with_console e (some (c, err x)) = some (err x)
with_console e (some (c, ok u)) = some (ok (record { console = c; ended = e }))

then_drain : Console → List Reads → Option Ended → Option (Result Worked)
unfolding with_console
then_drain c reads none = none
then_drain c reads (some e) =
    if e.returned
    then with_console e (drain_pipes c reads)
    else some (ok (record { console = c; ended = e }))

finish : ℕ → List Subprocess.Round → List Reads → Option Looped → Option (Result Worked)
unfolding then_drain
finish pid kills reads none = none
finish pid kills reads (some (thrown e c)) = some (err e)
finish pid kills reads (some (cleared c)) = then_drain c reads (terminate (some pid) kills)

-- `run_process` from the start of the process on; an exception of `wait_for_event` or of a read leaves
-- it.
unfoldable pub run_process :
    ℕ → List Round → List Subprocess.Round → List Reads → Option (Result Worked)
unfolding work finish
run_process pid rounds kills reads =
    finish pid kills reads (work (record { cout = []; cerr = [] }) rounds)
