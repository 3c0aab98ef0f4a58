-- ===== src/Server/Run.antt =====
-- `server` (src/zk/server/server.cpp): the test of the settings, the command of the process, and the
-- loop that prints what the process writes.
pub mod Arguments
pub mod Worker
pub mod Start
use zookeeper_cpp.Base.{
  ℕ, Bool, true, false, not, if◌then◌else◌, ◌&&◌, ◌||◌, List, [], ◌∷◌, ◌++◌, Option, none, some,
  Bytes, codes, decimal,
}
use zookeeper_cpp.Error.Exn.{Errno, eintr, invalid_argument, bad_optional_access, system_error}
use zookeeper_cpp.Error.Result.{Result, ok, err, ◌>>=◌}
use zookeeper_cpp.Process.System.{Answer, done, failed, is_eintr}
use zookeeper_cpp.Process.Event.{notify_one}
use zookeeper_cpp.Server.Classpath.{command_line}
use zookeeper_cpp.Server.Configuration.{Configuration, is_minimal, get_client_port}
use zookeeper_cpp.Server.Registry.{Classpath}

abbrev pub if_saved : Option Bytes → Result (Unit {0})
if_saved none = err (invalid_argument (codes "Configuration has not been saved to a file"))
if_saved (some path) = ok tt

-- `validate_settings`.
unfoldable pub validate_settings : Configuration → Result (Unit {0})
validate_settings settings = elim (is_minimal settings) [
  | true ↦ ok tt
  | false ↦ if_saved settings.source_file
]

-- `optional::value`.
abbrev pub value_of {ℓ} : {A : Type ℓ} → Option A → Result A
value_of none = err bad_optional_access
value_of (some a) = ok a

-- The arguments of the process `java` in `run_process`.
unfoldable pub process_args : Classpath → Configuration → Result (List Bytes)
unfolding command_line get_client_port
process_args packages settings =
    let args : List Bytes =
      codes "-cp"
      ∷ command_line packages
      ∷ codes "org.apache.zookeeper.server.quorum.QuorumPeerMain"
      ∷ [] in
    elim (is_minimal settings) [
      | true ↦ value_of settings.data_directory.value >>= λ path.
          ok (args ++ decimal (get_client_port settings) ∷ path ∷ [])
      | false ↦ value_of settings.source_file >>= λ path. ok (args ++ path ∷ [])
    ]

-- `wait_for_event`, from the answer of `select`.
unfoldable pub wait_for_event : Answer ℕ → Result (Unit {0})
wait_for_event (done n) = ok tt
wait_for_event (failed e) = elim (is_eintr e) [
  | true ↦ ok tt
  | false ↦ err (system_error e (codes "select"))
]

-- What the program has written to its standard output and its standard error.
pub record Console : Type 0 where
  pub cout : Bytes
  pub cerr : Bytes

-- A round of `drain_pipes`: how its two calls of `pipe::read` end.
pub record Reads : Type 0 where
  pub of_stdout : Result Bytes
  pub of_stderr : Result Bytes

abbrev pub is_empty : Bytes → Bool
is_empty [] = true
is_empty (c ∷ cs) = false

abbrev pub print_out : Console → Bytes → Console
print_out c out = if is_empty out then c else record c { cout = c.cout ++ out }

-- What a round writes if `err` is not empty: `out`.
abbrev pub print_err : Console → Bytes → Bytes → Console
print_err c out err_text = if is_empty err_text then c else record c { cerr = c.cerr ++ out }

-- A round: the console after it, and whether it has read anything, or the exception of a read.
unfoldable pub drained : Console → Result Bytes → Result Bytes → Console × Result Bool
drained c (err e) _ = (c, err e)
drained c (ok out) (err e) = (print_out c out, err e)
drained c (ok out) (ok err_text) =
    (print_err (print_out c out) out err_text, ok (not (is_empty out) || not (is_empty err_text)))

next_round :
    Console × Result Bool
    → (Console → Option (Console × Result (Unit {0})))
    → Option (Console × Result (Unit {0}))
next_round (c, err e) next = some (c, err e)
next_round (c, ok true) next = next c
next_round (c, ok false) next = some (c, ok tt)

-- `drain_pipes`: the console at its end and how it ended, or `none` if the rounds end before it does.
unfoldable pub drain_pipes : Console → List Reads → Option (Console × Result (Unit {0}))
unfolding drained next_round
drain_pipes c [] = none
drain_pipes c (r ∷ rounds) =
    next_round (drained c r.of_stdout r.of_stderr) (λ c'. drain_pipes c' rounds)

-- `shutdown`, from the answer of the event: the flag `_running` after it, and whether it has waited for
-- the worker.
unfoldable pub shutdown : Bool → Bool → Answer ℕ → Bool × Result Bool
unfolding notify_one
shutdown wait_for_stop joinable answer =
    (false, notify_one answer >>= λ notified. ok (wait_for_stop && joinable))
