-- ===== src/Process/Pipe/Closes.antt =====
-- What `pipe::close` does with the descriptors.
use zookeeper_cpp.Base.{ℕ, true, Option, none, some, [], ◌∷◌, ◌≡◌, refl}
use zookeeper_cpp.Error.Result.{ok}
use zookeeper_cpp.Process.System
use zookeeper_cpp.Process.System.{Answer, done, failed, is_eintr}
use zookeeper_cpp.Process.Pipe.{
  Pipe, close_if_open, close_read, close_write, close_pipe, is_closed, open_fds, all_closed,
  then_close_read, closed_end,
}

close-ok : (a : Answer (Unit {0})) → is_closed a ≡ true → System.close a ≡ ok tt
unfolding System.close
close-ok (done u) h = refl
close-ok (failed e) h = rw h refl

pub close_if_open_lem :
    (fd : ℕ) (a : Answer (Unit {0}))
    → is_closed a ≡ true
    → close_if_open (some fd) a ≡ record { fd = none; handed = fd ∷ []; outcome = ok tt }
unfolding close_if_open closed_end
close_if_open_lem fd a h = rw (close-ok a h) refl

-- `close`, where the system's `close` succeeds or is interrupted, gives each open descriptor of the pipe to the
-- system once, the one for writing first, and leaves both ends closed.
pub close_pipe_lem :
    (p : Pipe) (a b : Answer (Unit {0}))
    → is_closed a ≡ true
    → is_closed b ≡ true
    → close_pipe p a b ≡ record { pipe = all_closed; handed = open_fds p; outcome = ok tt }
unfolding close_pipe then_close_read close_write close_read close_if_open closed_end
close_pipe_lem p a b ha hb = cases p.write_fd p.read_fd
  where
    cases :
        (w r : Option ℕ)
        → close_pipe (record { read_fd = r; write_fd = w }) a b ≡ record {
          pipe = all_closed;
          handed = open_fds (record { read_fd = r; write_fd = w });
          outcome = ok tt;
        }
    cases none none = refl
    cases (some w) none = rw (close-ok a ha) refl
    cases none (some r) = rw (close-ok b hb) refl
    cases (some w) (some r) = rw (close-ok a ha, close-ok b hb) refl
