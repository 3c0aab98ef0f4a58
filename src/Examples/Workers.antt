-- ===== src/Examples/Workers.antt =====
-- The worker of a server (src/zk/server/server.cpp).
use zookeeper_cpp.Base.{List, [], ◌∷◌, ◌++◌, some, ◌≡◌, refl, codes, Bytes, true, false}
use zookeeper_cpp.Error.Exn.{eintr, esrch, future_error}
use zookeeper_cpp.Error.Result.{ok, err}
use zookeeper_cpp.Process.Subprocess
use zookeeper_cpp.Process.System.{done, failed}
use zookeeper_cpp.Server.Run.{Reads, drained, drain_pipes}
use zookeeper_cpp.Server.Run.Worker.{Round}
use zookeeper_cpp.Server.Run.Worker.Stops.{outs, outs_by_errors}

abbrev both_read : Bytes → Bytes → Reads
both_read o es = record { of_stdout = ok o; of_stderr = ok es }

-- The first round reads both pipes, the second is interrupted and reads nothing.
abbrev two_rounds : List Round
two_rounds =
    record {
      running = true;
      selected = done 1;
      reads = both_read (codes "started") (codes "warning") ∷ both_read [] [] ∷ [];
    }
    ∷ record { running = true; selected = failed eintr; reads = both_read [] [] ∷ [] }
    ∷ []

abbrev two_texts : List (Bytes × Bytes)
two_texts = (codes "started", codes "warning") ∷ []

abbrev stopped : Round
stopped = record { running = false; selected = done 0; reads = [] }

abbrev in_vain : Subprocess.Round
in_vain = record { killed = done tt; waited = failed eintr }

abbrev exited : Subprocess.Round
exited = record { killed = failed esrch; waited = done 17 }

abbrev last_reads : List Reads
last_reads = both_read (codes "bye") [] ∷ both_read [] [] ∷ []

abbrev last_texts : List (Bytes × Bytes)
last_texts = (codes "bye", []) ∷ []

-- What the example has printed.
two_texts-outs : outs (two_texts ++ last_texts) ≡ codes "startedbye"
unfolding outs
two_texts-outs = refl

-- The text of the standard output stands in place of the warning.
errors_after_two : outs_by_errors (two_texts ++ last_texts) ≡ codes "started"
unfolding outs_by_errors
errors_after_two = refl

-- A read that throws leaves the worker, with what was printed before.
reading_throws :
    drain_pipes
      (record { cout = []; cerr = [] })
      (both_read (codes "a") [] ∷ record { of_stdout = err future_error; of_stderr = ok [] } ∷ [])
    ≡ some (record { cout = codes "a"; cerr = [] }, err future_error)
unfolding drain_pipes drained
reading_throws = refl
