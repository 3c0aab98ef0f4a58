-- ===== src/Process/Spawn.antt =====
-- The start of a `subprocess` (src/zk/server/detail/subprocess.cpp): what the parent and the child do with
-- the pipes around `fork` and `execvp`.
--
-- The answers of the system to the calls of each of the two processes are an argument.
pub mod Streams
use zookeeper_cpp.Base.{ℕ, Bool, List, [], ◌∷◌, ◌++◌, Option, none, some, Bytes, if◌then◌else◌}
use zookeeper_cpp.Error.Exn.{Exn}
use zookeeper_cpp.Error.Result.{Result, ok, err}
use zookeeper_cpp.Process.Pipe.{
  Pipe, ClosedPipe, make_pipe, close_read, close_write, close_pipe, subsume_read, subsume_write,
}
use zookeeper_cpp.Process.Subprocess.{create_subproc}
use zookeeper_cpp.Process.System.{Answer, done, failed}

-- The answers to the calls of the child for one pipe: to `dup3`, to the close of the end that was
-- duplicated, and to the closes of `pipe::close`.
pub record Redirect : Type 0 where
  pub duplicated : List (Answer ℕ)
  pub closed : Answer (Unit {0})
  pub for_write : Answer (Unit {0})
  pub for_read : Answer (Unit {0})

close_rest : Redirect → ClosedPipe → Result (Unit {0}) → Result (Unit {0})
close_rest r c (err e) = err e
close_rest r c (ok u) = (close_pipe c.pipe r.for_write r.for_read).outcome

redirected : Redirect → Option ClosedPipe → Option (Result (Unit {0}))
unfolding close_rest
redirected r none = none
redirected r (some c) = some (close_rest r c c.outcome)

-- A pipe whose end for reading, or for writing, becomes a standard stream of the child.
unfoldable pub redirect_read : Pipe → Redirect → Option (Result (Unit {0}))
unfolding redirected
redirect_read p r = redirected r (subsume_read p r.duplicated r.closed)

unfoldable pub redirect_write : Pipe → Redirect → Option (Result (Unit {0}))
unfolding redirected
redirect_write p r = redirected r (subsume_write p r.duplicated r.closed)

-- How the child ends: another program runs with these arguments, it exits, or an exception leaves the
-- constructor in the child too.
pub data Child : Type 0 where
  runs : List (Option Bytes) → Child
  exits : ℕ → Child
  throws : Exn → Child

then_child : Option (Result (Unit {0})) → Option Child → Option Child
then_child none rest = none
then_child (some (err e)) rest = some (throws e)
then_child (some (ok u)) rest = rest

-- The three pipes of a process.
pub record Pipes : Type 0 where
  pub stdin : Pipe
  pub stdout : Pipe
  pub stderr : Pipe

-- The child of `create_subproc`, where `execvp` succeeds or returns.
unfoldable pub child :
    Pipes → Bytes → List Bytes → Redirect → Redirect → Redirect → Bool → Option Child
unfolding then_child redirect_read redirect_write
child p program_name args in_calls out_calls err_calls exec_succeeds =
    then_child (redirect_read p.stdin in_calls) (
      then_child (redirect_write p.stdout out_calls) (
        then_child (redirect_write p.stderr err_calls)
          (some (if exec_succeeds then runs (create_subproc program_name args) else exits 1))))

-- The answers to the three closes of the parent.
pub record ParentCloses : Type 0 where
  pub of_stdin : Answer (Unit {0})
  pub of_stdout : Answer (Unit {0})
  pub of_stderr : Answer (Unit {0})

then_closed : {A : Type 0} → ClosedPipe → (Pipe → Result A) → Result (Unit {0}) → Result A
then_closed c next (err e) = err e
then_closed c next (ok u) = next c.pipe

-- The parent of `create_subproc`: the ends that the child uses are closed.
unfoldable pub parent : Pipes → ParentCloses → Result Pipes
unfolding then_closed
parent p answers =
    let a : ClosedPipe = close_read p.stdin answers.of_stdin in
    let b : ClosedPipe = close_write p.stdout answers.of_stdout in
    let c : ClosedPipe = close_write p.stderr answers.of_stderr in
    then_closed a
      (λ i.
        then_closed b
          (λ o. then_closed c (λ e. ok (record { stdin = i; stdout = o; stderr = e })) c.outcome)
          b.outcome)
      a.outcome

-- The descriptors that `dont_leak` hands to `fcntl`.
unfoldable pub dont_leak : Pipe → List ℕ
dont_leak p = opened p.read_fd ++ opened p.write_fd
  where
    opened : Option ℕ → List ℕ
    opened none = []
    opened (some fd) = fd ∷ []

-- `subprocess`, where no process is the id -1, with the descriptors that got the flag `FD_CLOEXEC`.
pub record Spawned : Type 0 where
  pub proc_id : Option ℕ
  pub pipes : Pipes
  pub protected : List ℕ

-- What `fork` returns in the parent: a failure is the id -1.
abbrev pub forked : Answer ℕ → Option ℕ
forked (done pid) = some pid
forked (failed e) = none

with_id : Answer ℕ → Result Pipes → Result Spawned
unfolding dont_leak
with_id fork (err e) = err e
with_id fork (ok p) = ok (record {
  proc_id = forked fork;
  pipes = p;
  protected = dont_leak p.stdin ++ dont_leak p.stdout ++ dont_leak p.stderr;
})

open_then : {A : Type 0} → Result Pipe → (Pipe → Result A) → Result A
open_then (err e) next = err e
open_then (ok p) next = next p

-- The constructor of `subprocess` in the parent, from the answers to `pipe2` for the three pipes, to
-- `fork`, and to the closes.
unfoldable pub make_subprocess :
    Answer (ℕ × ℕ) → Answer (ℕ × ℕ) → Answer (ℕ × ℕ) → Answer ℕ → ParentCloses → Result Spawned
unfolding open_then with_id
make_subprocess for_in for_out for_err fork answers = open_then (make_pipe for_in) (λ i.
    open_then (make_pipe for_out) (λ o.
      open_then (make_pipe for_err)
        (λ e. with_id fork (parent (record { stdin = i; stdout = o; stderr = e }) answers))))
