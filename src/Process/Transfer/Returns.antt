-- ===== src/Process/Transfer/Returns.antt =====
-- When the loops of `pipe::read` and `pipe::write` return, and with what.
use zookeeper_cpp.Base.{
  ℕ, zero, suc, ◌≤◌, Bool, true, false, ◌||◌, List, [], ◌∷◌, ◌++◌, Option, some, ◌≡◌, refl, sym, ap,
  subst, some_inj, ◌⊎◌, inl, inr, append_assoc, append-nil, Bytes, length, drop, All, arith,
  Bool-cases, if◌then◌else◌,
}
use zookeeper_cpp.Error.Exn.{Exn, eagain}
use zookeeper_cpp.Error.Result.{Result, ok, err}
use zookeeper_cpp.Process.System.{Answer, done, failed, is_again, is_eintr}
use zookeeper_cpp.Process.Pipe.{Pipe}
use zookeeper_cpp.Process.Transfer.{Written, read, read_loop, read_failed, taken, write, write_loop}

-- After such an answer `read` goes on.
abbrev pub read_goes_on : Answer Bytes → Bool
read_goes_on (done []) = false
read_goes_on (done (c ∷ cs)) = true
read_goes_on (failed e) = elim (is_again e) [ true ↦ false | false ↦ is_eintr e ]

-- The bytes of the answers.
unfoldable pub bytes_of : List (Answer Bytes) → Bytes
bytes_of [] = []
bytes_of (done cs ∷ answers) = cs ++ bytes_of answers
bytes_of (failed e ∷ answers) = bytes_of answers

-- What `read` returns for the answer that ends it, after the bytes `out`.
unfoldable pub read_end : Bytes → Answer Bytes → Result Bytes
read_end out (done cs) = ok out
read_end out (failed e) = if is_again e then ok out else read_failed out e

read_loop_lem :
    (out : Bytes) (before : List (Answer Bytes)) (last : Answer Bytes) (rest : List (Answer Bytes))
    → All (λ a. read_goes_on a ≡ true) before
    → read_goes_on last ≡ false
    → read_loop out (before ++ last ∷ rest) ≡ some (read_end (out ++ bytes_of before) last, rest)
unfolding read_loop bytes_of read_end
read_loop_lem out [] (done []) rest on end = rw (append-nil out) refl
read_loop_lem out [] (done (c ∷ cs)) rest on end = cc
read_loop_lem out [] (failed e) rest on end = rw (append-nil out) (ground (arith, end))
read_loop_lem out (done [] ∷ before) last rest on end = cc
read_loop_lem out (done (c ∷ cs) ∷ before) last rest on end =
    rw
      (
        read_loop_lem (out ++ c ∷ cs) before last rest on.1 end,
        append_assoc out (c ∷ cs) (bytes_of before),
      )
      refl
read_loop_lem out (failed e ∷ before) last rest on end =
    ground (arith, on, read_loop_lem out before last rest on.1 end)

module _ (p : Pipe) {fd : ℕ} (is_open : p.read_fd ≡ some fd) where
  -- `read` of an open pipe goes on over interrupted calls and data, and returns at the first other
  -- answer: the data in their order, without loss, or the error if there are none.
  pub read_lem :
      (before : List (Answer Bytes)) (last : Answer Bytes) (rest : List (Answer Bytes))
      → All (λ a. read_goes_on a ≡ true) before
      → read_goes_on last ≡ false
      → read p (before ++ last ∷ rest) ≡ some (read_end (bytes_of before) last, rest)
  unfolding read
  read_lem before last rest on end = rw is_open (read_loop_lem [] before last rest on end)

pub taken-drop : (n : ℕ) (cs : Bytes) → taken n cs ++ drop n cs ≡ cs
unfolding taken
taken-drop zero cs = refl
taken-drop (suc n) [] = refl
taken-drop (suc n) (c ∷ cs) = rw (taken-drop n cs) refl

taken-drop_after :
    (channel : Bytes) (n : ℕ) (cs : Bytes) → (channel ++ taken n cs) ++ drop n cs ≡ channel ++ cs
taken-drop_after channel n cs =
    rw (append_assoc channel (taken n cs) (drop n cs), taken-drop n cs) refl

-- An answer that is no error of `write`.
abbrev pub write_goes_on : Answer ℕ → Bool
write_goes_on (done n) = true
write_goes_on (failed e) = is_again e || is_eintr e

-- How many answers took a byte at least.
unfoldable pub takes : List (Answer ℕ) → ℕ
takes [] = 0
takes (done zero ∷ answers) = takes answers
takes (done (suc n) ∷ answers) = suc (takes answers)
takes (failed e ∷ answers) = takes answers

length-drop : (n : ℕ) (cs : Bytes) → length (drop n cs) ≤ length cs
length-drop zero cs = omega arith
length-drop (suc n) [] = omega arith
length-drop (suc n) (c ∷ cs) = omega (arith, length-drop n cs)

-- `write` has returned with success, the channel holding all of this.
abbrev WritesAll : Option Written → Bytes → Type 0
WritesAll o channel =
    (rest : List (Answer ℕ)) × (o
      ≡ some (record { outcome = ok tt; channel = channel; answers = rest }))

write_loop-WritesAll :
    (channel contents : Bytes) (answers : List (Answer ℕ))
    → All (λ a. write_goes_on a ≡ true) answers
    → length contents ≤ takes answers
    → WritesAll (write_loop channel contents answers) (channel ++ contents)
unfolding write_loop takes taken
write_loop-WritesAll channel [] answers on h = (answers, rw (append-nil channel) refl)
write_loop-WritesAll channel (c ∷ cs) [] on h = absurd (omega arith)
write_loop-WritesAll channel (c ∷ cs) (done zero ∷ answers) on h =
    rw (append-nil channel) (write_loop-WritesAll channel (c ∷ cs) answers on.1 h)
write_loop-WritesAll channel (c ∷ cs) (done (suc n) ∷ answers) on h =
    subst (WritesAll (write_loop (channel ++ taken (suc n) (c ∷ cs)) (drop n cs) answers))
      (taken-drop_after channel (suc n) (c ∷ cs))
      (write_loop-WritesAll (channel ++ taken (suc n) (c ∷ cs)) (drop n cs) answers on.1
        (omega (arith, length-drop n cs, h)))
write_loop-WritesAll channel (c ∷ cs) (failed e ∷ answers) on h =
    ground (arith, on, write_loop-WritesAll channel (c ∷ cs) answers on.1 h)

-- `write` of a pipe that holds `channel` ends, if the system answers without an error other than
-- that the pipe is full or the call interrupted, and as many answers take a byte at least as there are
-- bytes: it succeeds, and the pipe then holds the contents after what it held.
pub write-WritesAll :
    (p : Pipe) {fd : ℕ} (channel contents : Bytes) (answers : List (Answer ℕ))
    → p.write_fd ≡ some fd
    → All (λ a. write_goes_on a ≡ true) answers
    → length contents ≤ takes answers
    → (rest : List (Answer ℕ)) × (write p channel contents answers
        ≡ some (record { outcome = ok tt; channel = channel ++ contents; answers = rest }))
unfolding write
write-WritesAll p channel contents answers is_open on h =
    rw is_open (write_loop-WritesAll channel contents answers on h)

-- What `write` has handed over when it returns: all contents, or it threw an exception.
write_loop-channel :
    (channel contents : Bytes) (answers : List (Answer ℕ)) (w : Written)
    → write_loop channel contents answers ≡ some w
    → (w.channel ≡ channel ++ contents) ⊎ ((e : Exn) × (w.outcome ≡ err e))
unfolding write_loop
write_loop-channel channel [] answers w e =
    inl (rw (append-nil channel) (ap (λ (v : Written). v.channel) (sym (some_inj e))))
write_loop-channel channel (c ∷ cs) [] w e = cc
write_loop-channel channel (c ∷ cs) (done n ∷ answers) w e =
    subst (λ all. (w.channel ≡ all) ⊎ ((e : Exn) × (w.outcome ≡ err e)))
      (taken-drop_after channel n (c ∷ cs))
      (write_loop-channel (channel ++ taken n (c ∷ cs)) (drop n (c ∷ cs)) answers w e)
write_loop-channel channel (c ∷ cs) (failed e ∷ answers) w eq = elim (Bool-cases (is_again e)) [
  | inl a ↦ write_loop-channel channel (c ∷ cs) answers w (rw a at eq)
  | inr a ↦ elim (Bool-cases (is_eintr e)) [
    | inl i ↦ write_loop-channel channel (c ∷ cs) answers w (rw (a, i) at eq)
    | inr i ↦ inr (_, ap (λ (v : Written). v.outcome) (sym (some_inj (rw (a, i) at eq))))
  ]
]

-- The bytes that `write` hands to an empty pipe, when it succeeds, are what `read` of a pipe returns
-- that gets them in any pieces, interrupted or not, and then finds the pipe empty: the contents.
pub read-write :
    (p : Pipe) {r w : ℕ} (contents : Bytes) (writes : List (Answer ℕ))
    (reads rest : List (Answer Bytes)) (written : Written)
    → p.read_fd ≡ some r
    → p.write_fd ≡ some w
    → write p [] contents writes ≡ some written
    → written.outcome ≡ ok tt
    → All (λ a. read_goes_on a ≡ true) reads
    → bytes_of reads ≡ written.channel
    → read p (reads ++ failed eagain ∷ rest) ≡ some (ok contents, rest)
unfolding write read_end
read-write p contents writes reads rest written is_read is_write wrote fine on same =
    rw (read_lem p is_read reads (failed eagain) rest on refl, same, channel_lem) refl
  where
    channel_lem : written.channel ≡ contents
    channel_lem = elim (write_loop-channel [] contents writes written (rw is_write at wrote)) [
      | inl e ↦ e
      | inr (e, thrown) ↦ cc
    ]
