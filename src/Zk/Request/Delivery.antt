-- ===== src/Zk/Request/Delivery.antt =====
-- Every operation's promise is satisfied exactly once. The C library is seen through the requests that
-- it took and has not completed, in any order; it completes each of them once, as it documents.
use zookeeper_cpp.Base.{
  ℕ, ℤ, ◌<◌, List, [], ◌∷◌, ◌++◌, ◌≡◌, ◌≢◌, ◌↔◌, inl, inr, subst, sym, ◌∙◌, get_elem?-lt,
  get_elem?-concat_self, get_elem?-concat_ne, get_elem?-concat_cases, arith, some, ◌==ℤ◌,
  if◌then◌else◌, Bool-cases, length, get_elem?, set, get_elem?-set_self, get_elem?-set_ne, some_inj,
  none-some, Picks, HasKey, Distinct, Picks-HasKey, Picks-rest, Picks-other, Picks-gone,
  Picks-Distinct,
}
use zookeeper_cpp.Error.Code
use zookeeper_cpp.Zk.Adaptors.{error_code_from_raw}
use zookeeper_cpp.Zk.Promise.{Promise, unset}
use zookeeper_cpp.Zk.Zoo.{Zoo}
use zookeeper_cpp.Zk.Request.{Request, exists, Payload, Reply, Heap, callback, submit, run_callback}

-- The promises, and the requests that wait in the library with their promise's address.
pub record System : Type 0 where
  pub heap : Heap
  pub pending : List (ℕ × Request)

-- The state after a call of an operation, for the library's result of the call.
abbrev pub after_submit : Zoo → Request → ℤ → System → System
after_submit zoo r rc_in s = record {
  heap = (submit zoo rc_in s.heap).0;
  pending =
      if error_code_from_raw zoo rc_in ==ℤ Code.ok
      then ((submit zoo rc_in s.heap).1, r) ∷ s.pending
      else s.pending;
}

-- A call of an operation, or the completion of a request that waits. No callback runs inside of the call
-- of its request, which `load_fence` relies on.
pub data Step (zoo : Zoo) (s : System) : System → Type 0 where
  submits : (r : Request) (rc_in : ℤ) → Step zoo s (after_submit zoo r rc_in s)
  completes :
      (i : ℕ) (r : Request) (rest : List (ℕ × Request)) (rc_in : ℤ) (payload : Payload r)
      (heap' : Heap)
      → Picks (i, r) s.pending rest
      → run_callback zoo r rc_in payload i s.heap ≡ some heap'
      → Step zoo s (record { heap = heap'; pending = rest })

pub data Reach (zoo : Zoo) : System → Type 0 where
  start : Reach zoo (record { heap = []; pending = [] })
  next : {s t : System} → Reach zoo s → Step zoo s t → Reach zoo t

-- The promises without a result are those of the requests that wait.
pub record Inv (s : System) : Type 0 where
  pub unset→waits : (i : ℕ) → get_elem? s.heap i ≡ some unset → HasKey i s.pending
  pub waits→unset : (i : ℕ) → HasKey i s.pending → get_elem? s.heap i ≡ some unset
  pub distinct : Distinct s.pending

-- A promise whose callback runs has no result yet, so the callback finds it and gives it one.
run_callback_lem :
    (zoo : Zoo) (r : Request) (rc_in : ℤ) (payload : Payload r) (i : ℕ) (heap : Heap)
    → get_elem? heap i ≡ some unset
    → run_callback zoo r rc_in payload i heap ≡ some (set heap i (callback zoo r rc_in payload))
unfolding run_callback
run_callback_lem zoo r rc_in payload i heap e = rw e

pub callback-ne-unset :
    (zoo : Zoo) (r : Request) (rc_in : ℤ) (payload : Payload r)
    → callback zoo r rc_in payload ≢ unset
unfolding callback
callback-ne-unset zoo (exists path) rc_in payload = ground arith
callback-ne-unset zoo _ rc_in payload = ground arith

waits-lt : {s : System} → Inv s → (i : ℕ) → HasKey i s.pending → i < length s.heap
waits-lt {s} v i w = get_elem?-lt s.heap i (v.waits→unset i w)

taken-Inv :
    (s : System) (r : Request)
    → Inv s
    → Inv (record { heap = s.heap ++ unset ∷ []; pending = (length s.heap, r) ∷ s.pending })
taken-Inv s r v = record {
  unset→waits = λ i e. elim (get_elem?-concat_cases s.heap unset i e) [
    | inl (f, g) ↦ inl f
    | inr f ↦ inr (v.unset→waits i f)
  ];
  waits→unset = λ i w. elim w [
    | inl f ↦ rw f (get_elem?-concat_self s.heap unset)
    | inr f ↦
        get_elem?-concat_ne s.heap unset i (λ e. omega (arith, waits-lt v i f)) ∙ v.waits→unset i f
  ];
  distinct = (λ w. omega (arith, waits-lt v (length s.heap) w), v.distinct);
}

refused-Inv :
    (s : System) (p : Promise Reply)
    → p ≢ unset
    → Inv s
    → Inv (record { heap = s.heap ++ p ∷ []; pending = s.pending })
refused-Inv s p ne v = record {
  unset→waits = λ i e. elim (get_elem?-concat_cases s.heap p i e) [
    | inl (f, g) ↦ absurd (ne g)
    | inr f ↦ v.unset→waits i f
  ];
  waits→unset = λ i w.
      get_elem?-concat_ne s.heap p i (λ e. omega (arith, waits-lt v i w)) ∙ v.waits→unset i w;
  distinct = v.distinct;
}

after_submit-Inv :
    (zoo : Zoo) (r : Request) (rc_in : ℤ) (s : System) → Inv s → Inv (after_submit zoo r rc_in s)
unfolding submit
after_submit-Inv zoo r rc_in s v = elim (Bool-cases (error_code_from_raw zoo rc_in ==ℤ Code.ok)) [
  | inl taken ↦ rw taken (taken-Inv s r v)
  | inr refused ↦ rw refused (refused-Inv s _ (λ e. cc e) v)
]

set-unset :
    (i j : ℕ) (heap : Heap) (p : Promise Reply)
    → p ≢ unset
    → i < length heap
    → get_elem? (set heap i p) j ≡ some unset
    → (j ≢ i) × (get_elem? heap j ≡ some unset)
set-unset i j heap p ne lt e =
    let differ : j ≢ i = λ same. ne (
      some_inj (
        sym (get_elem?-set_self heap i p lt)
        ∙ subst (λ k. get_elem? (set heap i p) k ≡ some unset) same e)) in
    (differ, sym (get_elem?-set_ne heap p (λ same. differ (sym same))) ∙ e)

completed-Inv :
    (s : System) (i : ℕ) (r : Request) (rest : List (ℕ × Request)) (p : Promise Reply)
    → p ≢ unset
    → Picks (i, r) s.pending rest
    → Inv s
    → Inv (record { heap = set s.heap i p; pending = rest })
completed-Inv s i r rest p ne pick v =
    let lt : i < length s.heap = waits-lt v i (Picks-HasKey pick) in
    record {
      unset→waits = λ j e.
          let (differ, old) = set-unset i j s.heap p ne lt e in
          Picks-other pick j differ (v.unset→waits j old);
      waits→unset = λ j w.
          get_elem?-set_ne s.heap p (λ e. Picks-gone pick v.distinct (rw e w))
          ∙ v.waits→unset j (Picks-rest pick j w);
      distinct = Picks-Distinct pick v.distinct;
    }

pub Step-Inv : {zoo : Zoo} {s t : System} → Step zoo s t → Inv s → Inv t
Step-Inv {zoo} {s} (submits r rc_in) v = after_submit-Inv zoo r rc_in s v
Step-Inv {zoo} {s} (completes i r rest rc_in payload heap' pick run) v =
    let done : heap' ≡ set s.heap i (callback zoo r rc_in payload) = some_inj (
      sym run
      ∙ run_callback_lem zoo r rc_in payload i s.heap (v.waits→unset i (Picks-HasKey pick))) in
    rw done (completed-Inv s i r rest _ (callback-ne-unset zoo r rc_in payload) pick v)

pub Reach-Inv : {zoo : Zoo} {s : System} → Reach zoo s → Inv s
Reach-Inv start = record {
  unset→waits = λ i e. absurd (none-some e);
  waits→unset = λ i w. absurd w;
  distinct = tt;
}
Reach-Inv (next r st) = Step-Inv st (Reach-Inv r)

-- In every state that calls and completions in any order can lead to, a promise has no result yet
-- exactly if its request still waits in the library.
pub Reach-unset_iff :
    {zoo : Zoo} {s : System} (i : ℕ)
    → Reach zoo s
    → (get_elem? s.heap i ≡ some unset) ↔ HasKey i s.pending
Reach-unset_iff i r = ((Reach-Inv r).unset→waits i, (Reach-Inv r).waits→unset i)

-- In every such state, whichever waiting request the library completes next, with whatever code and
-- data, its callback finds a promise with no result, so `std::future_error` is not thrown; that promise
-- gets what the callback makes of the code and the data, and no other promise changes.
pub Reach-callback :
    {zoo : Zoo} {s : System} {i : ℕ} {r : Request} {rest : List (ℕ × Request)} (rc_in : ℤ)
    (payload : Payload r)
    → Reach zoo s
    → Picks (i, r) s.pending rest
    → (i < length s.heap)
      × (run_callback zoo r rc_in payload i s.heap
          ≡ some (set s.heap i (callback zoo r rc_in payload)))
Reach-callback {zoo} {s} {i} {r} rc_in payload reach pick =
    let v : Inv s = Reach-Inv reach in
    let waits : HasKey i s.pending = Picks-HasKey pick in
    (waits-lt v i waits, run_callback_lem zoo r rc_in payload i s.heap (v.waits→unset i waits))
