-- ===== src/Process/Transfer.antt =====
-- `pipe::read` and `pipe::write` (src/zk/server/detail/pipe.cpp): their loops, over the answers of the
-- system to the calls in their order.
pub mod Returns
use zookeeper_cpp.Base.{
  ℕ, zero, suc, ◌-◌, Bool, true, false, List, [], ◌∷◌, ◌++◌, Option, none, some, Bytes, codes, drop,
  if◌then◌else◌,
}
use zookeeper_cpp.Error.Exn.{Exn, Errno, pipe_closed, system_error}
use zookeeper_cpp.Error.Result.{Result, ok, err}
use zookeeper_cpp.Process.System.{Answer, done, failed, is_again, is_eintr, is_epipe}
use zookeeper_cpp.Process.Pipe.{Pipe}

-- What a read returns for an error after it has read `out`.
abbrev pub read_failed : Bytes → Errno → Result Bytes
read_failed [] e = err (system_error e (codes "Failed to read from pipe"))
read_failed (c ∷ out) e = ok (c ∷ out)

-- The loop of `read`: its result and the answers that are left, or `none` if the answers end before it
-- returns. An answer is the bytes that were read; no bytes are the end of the file.
unfoldable pub read_loop : Bytes → List (Answer Bytes) → Option (Result Bytes × List (Answer Bytes))
read_loop out [] = none
read_loop out (failed e ∷ answers) =
    let rest = read_loop out answers in
    if is_again e
    then some (ok out, answers)
    else if is_eintr e
    then rest
    else some (read_failed out e, answers)
read_loop out (done [] ∷ answers) = some (ok out, answers)
read_loop out (done (c ∷ cs) ∷ answers) = read_loop (out ++ c ∷ cs) answers

-- `read`. `max` reserves memory only.
unfoldable pub read : Pipe → List (Answer Bytes) → Option (Result Bytes × List (Answer Bytes))
unfolding read_loop
read p answers = elim p.read_fd [
  | none ↦ some (err pipe_closed, answers)
  | some fd ↦ read_loop [] answers
]

-- The first `n` bytes.
unfoldable pub taken : ℕ → Bytes → Bytes
taken zero cs = []
taken (suc n) [] = []
taken (suc n) (c ∷ cs) = c ∷ taken n cs

-- The end of a write: what the system has taken by then, and the answers that are left.
pub record Written : Type 0 where
  pub outcome : Result (Unit {0})
  pub channel : Bytes
  pub answers : List (Answer ℕ)

-- The loop of `write`, with what the system has taken and what is left of the contents: `none` if the
-- answers end before it returns. An answer is the number of bytes that were taken.
unfoldable pub write_loop : Bytes → Bytes → List (Answer ℕ) → Option Written
unfolding taken
write_loop channel [] answers =
    some (record { outcome = ok tt; channel = channel; answers = answers })
write_loop channel (c ∷ cs) [] = none
write_loop channel (c ∷ cs) (done n ∷ answers) =
    write_loop (channel ++ taken n (c ∷ cs)) (drop n (c ∷ cs)) answers
write_loop channel (c ∷ cs) (failed e ∷ answers) =
    let rest = write_loop channel (c ∷ cs) answers in
    if is_again e
    then rest
    else if is_eintr e
    then rest
    else some (record {
      outcome =
          err
            (if is_epipe e then pipe_closed else system_error e (codes "Failed to write to pipe"));
      channel = channel;
      answers = answers;
    })

-- `write`, to a pipe that holds `channel`.
unfoldable pub write : Pipe → Bytes → Bytes → List (Answer ℕ) → Option Written
unfolding write_loop
write p channel contents answers = elim p.write_fd [
  | none ↦ some (record { outcome = err pipe_closed; channel = channel; answers = answers })
  | some fd ↦ write_loop channel contents answers
]
