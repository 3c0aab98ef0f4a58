-- ===== src/Examples/Processes.antt =====
-- Pipes and subprocesses of src/zk/server/detail.
use zookeeper_cpp.Base.{ℕ, List, [], ◌∷◌, ◌++◌, some, ◌≡◌, refl, codes, Bytes, map, arith, true}
use zookeeper_cpp.Error.Exn.{eagain, eintr, esrch}
use zookeeper_cpp.Error.Result.{ok}
use zookeeper_cpp.Process.Pipe.{Pipe}
use zookeeper_cpp.Process.Subprocess.{Round, terminate, sigterm, sigabrt}
use zookeeper_cpp.Process.Subprocess.Ends.{terminate_lem}
use zookeeper_cpp.Process.System.{Answer, done, failed}
use zookeeper_cpp.Process.Transfer.{Written, read, write, write_loop, taken}
use zookeeper_cpp.Process.Transfer.Returns.{read-write, write-WritesAll, takes, bytes_of}

abbrev a_pipe : Pipe
a_pipe = record { read_fd = some 3; write_fd = some 4 }

-- The system takes two bytes, is full, is interrupted, and takes one byte.
abbrev some_writes : List (Answer ℕ)
some_writes = done 2 ∷ failed eagain ∷ failed eintr ∷ done 1 ∷ done 0 ∷ done 1 ∷ []

write-WritesAll_example :
    (rest : List (Answer ℕ)) × (write a_pipe (codes "x") (codes "abc") some_writes
      ≡ some (record { outcome = ok tt; channel = codes "x" ++ codes "abc"; answers = rest }))
unfolding takes
write-WritesAll_example =
    write-WritesAll a_pipe (codes "x") (codes "abc") some_writes refl
      (refl, (refl, (refl, (refl, (refl, (refl, tt)))))) (omega arith)

abbrev a_written : Written
a_written = record { outcome = ok tt; channel = codes "abc"; answers = done 0 ∷ done 1 ∷ [] }

a_write : write a_pipe [] (codes "abc") some_writes ≡ some a_written
unfolding write write_loop taken
a_write = refl

abbrev some_reads : List (Answer Bytes)
some_reads = done (codes "a") ∷ failed eintr ∷ done (codes "bc") ∷ []

read-write_example : read a_pipe (some_reads ++ failed eagain ∷ []) ≡ some (ok (codes "abc"), [])
unfolding bytes_of
read-write_example =
    read-write a_pipe (codes "abc") some_writes some_reads [] a_written refl refl a_write refl
      (refl, (refl, (refl, tt))) refl

-- A wait that the alarm interrupts, and one that ends.
abbrev interrupted : Round
interrupted = record { killed = done tt; waited = failed eintr }

abbrev ended : Round
ended = record { killed = failed esrch; waited = done 17 }

terminate_lem_example :
    terminate (some 17) ((interrupted ∷ interrupted ∷ []) ++ ended ∷ [])
    ≡ some (record {
      signals = sigterm ∷ map (λ r. sigabrt) (interrupted ∷ interrupted ∷ []);
      returned = true;
    })
terminate_lem_example =
    terminate_lem 17 (interrupted ∷ interrupted ∷ []) ended [] (omega arith)
      ((refl, refl), ((refl, refl), tt)) (refl, refl)
