-- ===== src/Process/Spawn/Streams.antt =====
-- The standard streams of a new process.
use zookeeper_cpp.Base.{
  ℕ, Bool, true, List, [], ◌∷◌, none, some, ◌≡◌, refl, ap, Bytes, if◌then◌else◌,
}
use zookeeper_cpp.Error.Result.{ok}
use zookeeper_cpp.Process.Pipe.{
  ClosedPipe, make_pipe, close_read, close_write, dup3, is_closed, subsume_read, subsume_write,
}
use zookeeper_cpp.Process.Pipe.Closes.{close_pipe_lem, close_if_open_lem}
use zookeeper_cpp.Process.Subprocess.{create_subproc}
use zookeeper_cpp.Process.System.{Answer, done}
use zookeeper_cpp.Process.Spawn.{
  ParentCloses, Redirect, child, parent, dont_leak, forked, make_subprocess, redirect_read,
  redirect_write, redirected, runs, exits, then_closed, then_child, with_id, open_then, close_rest,
}

-- A new subprocess keeps the end for writing of the process's standard input and those for reading of
-- its other streams, and nothing but these is kept from programs that are started later. If `fork`
-- fails, the constructor returns nevertheless, without a process.
make_subprocess_lem :
    (i o e : ℕ × ℕ) (fork : Answer ℕ) (answers : ParentCloses)
    → is_closed answers.of_stdin ≡ true
    → is_closed answers.of_stdout ≡ true
    → is_closed answers.of_stderr ≡ true
    → make_subprocess (done i) (done o) (done e) fork answers
      ≡ ok (record {
        proc_id = forked fork;
        pipes = record {
          stdin = record { read_fd = none; write_fd = some i.1 };
          stdout = record { read_fd = some o.0; write_fd = none };
          stderr = record { read_fd = some e.0; write_fd = none };
        };
        protected = i.1 ∷ o.0 ∷ e.0 ∷ [];
      })
unfolding make_subprocess open_then with_id parent then_closed make_pipe close_read close_write
    dont_leak
make_subprocess_lem i o e fork answers hi ho he =
    rw
      (
        close_if_open_lem i.0 answers.of_stdin hi,
        close_if_open_lem o.1 answers.of_stdout ho,
        close_if_open_lem e.1 answers.of_stderr he,
      )
      refl

-- The calls of the child for a pipe succeed.
abbrev Succeeds : Redirect → Type 0
Succeeds r =
    (fd : ℕ) × (dup3 r.duplicated ≡ some (ok fd))
    × (is_closed r.closed ≡ true)
    × (is_closed r.for_write ≡ true)
    × (is_closed r.for_read ≡ true)

redirect_read-ok :
    (r w : ℕ) (calls : Redirect)
    → Succeeds calls
    → redirect_read (record { read_fd = some r; write_fd = some w }) calls ≡ some (ok tt)
unfolding redirect_read redirected close_rest subsume_read close_read
redirect_read-ok r w calls (fd, d, a, b, c) =
    rw (d, close_if_open_lem r calls.closed a)
      (ap (λ (x : ClosedPipe). some x.outcome)
        (close_pipe_lem (record { read_fd = none; write_fd = some w }) calls.for_write
          calls.for_read b c))

redirect_write-ok :
    (r w : ℕ) (calls : Redirect)
    → Succeeds calls
    → redirect_write (record { read_fd = some r; write_fd = some w }) calls ≡ some (ok tt)
unfolding redirect_write redirected close_rest subsume_write close_write
redirect_write-ok r w calls (fd, d, a, b, c) =
    rw (d, close_if_open_lem w calls.closed a)
      (ap (λ (x : ClosedPipe). some x.outcome)
        (close_pipe_lem (record { read_fd = some r; write_fd = none }) calls.for_write
          calls.for_read b c))

-- In the child whose calls succeed the program runs with the given arguments behind its own name, or
-- the child exits.
child_lem :
    (i o e : ℕ × ℕ) (program_name : Bytes) (args : List Bytes)
    (in_calls out_calls err_calls : Redirect) (exec_succeeds : Bool)
    → Succeeds in_calls
    → Succeeds out_calls
    → Succeeds err_calls
    → child
        (record {
          stdin = record { read_fd = some i.0; write_fd = some i.1 };
          stdout = record { read_fd = some o.0; write_fd = some o.1 };
          stderr = record { read_fd = some e.0; write_fd = some e.1 };
        })
        program_name
        args
        in_calls
        out_calls
        err_calls
        exec_succeeds
      ≡ some (if exec_succeeds then runs (create_subproc program_name args) else exits 1)
unfolding child then_child
child_lem i o e program_name args in_calls out_calls err_calls exec_succeeds hi ho he =
    rw
      (
        redirect_read-ok i.0 i.1 in_calls hi,
        redirect_write-ok o.0 o.1 out_calls ho,
        redirect_write-ok e.0 e.1 err_calls he,
      )
      refl
