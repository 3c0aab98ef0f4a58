-- ===== src/Process/Subprocess/Ends.antt =====
-- How `subprocess::terminate` ends.
use zookeeper_cpp.Base.{
  ℕ, suc, ◌+◌, ◌%◌, ◌^◌, ◌≤◌, ◌<◌, ℤ, pos, negsuc, Bool, true, false, List, [], ◌∷◌, ◌++◌, Option,
  some, ◌≡◌, refl, map, length, All, arith,
}
use zookeeper_cpp.Error.Result.{ok}
use zookeeper_cpp.Process.System.{Answer, done, failed}
use zookeeper_cpp.Process.Subprocess.{
  Signal, sigterm, sigabrt, Round, Ended, signal, signal_of, ends_wait, terminate, terminate_loop,
  alarm_time, is_esrch, after_signal, prepend,
}

-- `kill` reached the process, or found that it is gone.
abbrev pub is_signalled : Answer (Unit {0}) → Bool
is_signalled (done u) = true
is_signalled (failed e) = is_esrch e

-- A round after which `terminate` goes on, and one after which it returns.
abbrev pub IsTried : Round → Type 0
IsTried r = (is_signalled r.killed ≡ true) × (ends_wait r.waited ≡ false)

abbrev pub IsLast : Round → Type 0
IsLast r = (is_signalled r.killed ≡ true) × (ends_wait r.waited ≡ true)

signal-ok :
    (pid : ℕ) (a : Answer (Unit {0}))
    → is_signalled a ≡ true
    → (b : Bool) × (signal (some pid) a ≡ ok b)
unfolding signal
signal-ok pid (done u) h = (true, refl)
signal-ok pid (failed e) h = (false, rw h refl)

module _ (pid : ℕ) (s : Signal) (r : Round) (later : Option Ended) where
  after_signal-last :
      IsLast r
      → after_signal s (signal (some pid) r.killed) r.waited later
        ≡ some (record { signals = s ∷ []; returned = true })
  after_signal-last end = let (sent, e) = signal-ok pid r.killed end.0 in rw (e, end.1) refl

  after_signal-tried :
      IsTried r → after_signal s (signal (some pid) r.killed) r.waited later ≡ prepend s later
  after_signal-tried tried = let (sent, e) = signal-ok pid r.killed tried.0 in rw (e, tried.1) refl

signal_of-later : (attempt : ℕ) → 1 < attempt → signal_of attempt ≡ sigabrt
signal_of-later attempt h = ground arith

next_attempt : (attempt n : ℕ) → attempt + suc n < 2 ^ 32 → (attempt + 1) % 2 ^ 32 ≡ suc attempt
next_attempt attempt n h = omega arith

-- Every later attempt aborts the process.
terminate_loop_lem :
    (pid attempt : ℕ) (before : List Round) (last : Round) (rest : List Round)
    → 1 < attempt
    → attempt + length before < 2 ^ 32
    → All IsTried before
    → IsLast last
    → terminate_loop attempt pid (before ++ last ∷ rest)
      ≡ some (record { signals = map (λ r. sigabrt) before ++ sigabrt ∷ []; returned = true })
unfolding terminate_loop
terminate_loop_lem pid attempt [] last rest above small tried end =
    rw (after_signal-last pid (signal_of attempt) last _ end, signal_of-later attempt above) refl
terminate_loop_lem pid attempt (r ∷ before) last rest above small tried end =
    rw
      (
        after_signal-tried pid (signal_of attempt) r _ tried.0,
        signal_of-later attempt above,
        next_attempt attempt (length before) small,
        terminate_loop_lem pid (suc attempt) before last rest (omega arith) (omega arith) tried.1
            end,
      )
      refl

-- `terminate` of a process that runs, where each signal reaches it or finds it gone, returns after the
-- first wait that ends, if there are fewer than 2 ^ 32 - 1 waits before it: the process gets one
-- `SIGTERM`, and `SIGABRT` once for every wait that did not end.
pub terminate_lem :
    (pid : ℕ) (before : List Round) (last : Round) (rest : List Round)
    → 1 + length before < 2 ^ 32
    → All IsTried before
    → IsLast last
    → terminate (some pid) (before ++ last ∷ rest)
      ≡ some (record { signals = sigterm ∷ map (λ r. sigabrt) before; returned = true })
unfolding terminate terminate_loop
terminate_lem pid [] last rest small tried end = after_signal-last pid sigterm last _ end
terminate_lem pid (r ∷ before) last rest small tried end =
    rw
      (
        after_signal-tried pid sigterm r _ tried.0,
        terminate_loop_lem pid 2 before last rest (omega arith) (omega arith) tried.1 end,
        map_snoc before,
      )
      refl
  where
    map_snoc :
        (rs : List Round) → map (λ r. sigabrt) rs ++ sigabrt ∷ [] ≡ sigabrt ∷ map (λ r. sigabrt) rs
    map_snoc [] = refl
    map_snoc (r ∷ rs) = rw (map_snoc rs) refl

alarm_time-bounds : (d : ℤ) → (1 ≤ alarm_time d) × (alarm_time d ≤ 300)
unfolding alarm_time
alarm_time-bounds (negsuc n) = omega arith
alarm_time-bounds (pos n) = ground arith
