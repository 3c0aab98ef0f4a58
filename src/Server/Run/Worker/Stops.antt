-- ===== src/Server/Run/Worker/Stops.antt =====
-- The worker of a server stops, and what it has printed by then.
use zookeeper_cpp.Base.{ℕ, true, List, [], ◌∷◌, ◌++◌, ◌≡◌, not, ◌||◌, Bytes}
use zookeeper_cpp.Error.Result.{ok}
use zookeeper_cpp.Process.System.{Answer}
use zookeeper_cpp.Process.Subprocess
use zookeeper_cpp.Process.Subprocess.{terminate}
use zookeeper_cpp.Server.Run.{Console, Reads, is_empty, wait_for_event}
use zookeeper_cpp.Server.Run.Worker.{Round}

-- The reads throw nothing and come to a round that reads nothing, and these are the texts of both pipes
-- in each round before that.
pub data Drains : List Reads → List (Bytes × Bytes) → Type 0 where
  dry : (rounds : List Reads) → Drains (record { of_stdout = ok []; of_stderr = ok [] } ∷ rounds) []
  wet :
      (o es : Bytes) {rounds : List Reads} {texts : List (Bytes × Bytes)}
      → (not (is_empty o) || not (is_empty es)) ≡ true
      → Drains rounds texts
      → Drains (record { of_stdout = ok o; of_stderr = ok es } ∷ rounds) ((o, es) ∷ texts)

-- The texts of the standard output.
unfoldable pub outs : List (Bytes × Bytes) → Bytes
outs [] = []
outs ((o, es) ∷ texts) = o ++ outs texts

-- Those from the rounds that read something of the standard error.
unfoldable pub outs_by_errors : List (Bytes × Bytes) → Bytes
outs_by_errors [] = []
outs_by_errors ((o, []) ∷ texts) = outs_by_errors texts
outs_by_errors ((o, e ∷ es) ∷ texts) = o ++ outs_by_errors texts

-- The console after reads.
abbrev printed : Console → List (Bytes × Bytes) → Console
printed c texts = record { cout = c.cout ++ outs texts; cerr = c.cerr ++ outs_by_errors texts }

-- The rounds that go on to the next: the flag is set, `select` returns or is interrupted, and the reads
-- come to an end without an exception. The texts are those of all rounds.
pub data GoOn : List Round → List (Bytes × Bytes) → Type 0 where
  none_yet : GoOn [] []
  round :
      (selected : Answer ℕ) (reads : List Reads) {texts : List (Bytes × Bytes)}
      {before : List Round} {later : List (Bytes × Bytes)}
      → wait_for_event selected ≡ ok tt
      → Drains reads texts
      → GoOn before later
      → GoOn
          (record { running = true; selected = selected; reads = reads } ∷ before)
          (texts ++ later)
