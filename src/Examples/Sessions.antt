-- ===== src/Examples/Sessions.antt =====
-- A session of src/zk/connection_zk.cpp: one watch, its completion, its event, and `close`.
use zookeeper_cpp.Base.{
  ℤ, pos, neg, Bool, Option, true, false, [], ◌∷◌, none, some, ◌≡◌, ◌↔◌, refl, inl, codes, here,
  HasKey, get_elem?, set, All, ◌<◌, extract,
}
use zookeeper_cpp.Error.Code
use zookeeper_cpp.Error.Result.{ok}
use zookeeper_cpp.Zk.Adaptors.{error_code_from_raw, stat_from_raw, event_from_raw, state_from_raw}
use zookeeper_cpp.Zk.Promise.{unset, value}
use zookeeper_cpp.Zk.Request
use zookeeper_cpp.Zk.Request.{callback, submit, run_callback, get_result}
use zookeeper_cpp.Zk.Request.Delivery
use zookeeper_cpp.Zk.Request.Delivery.{Reach-unset_iff, Reach-callback}
use zookeeper_cpp.Zk.Session.{Conn, place, watch, complete_watch, deliver_watch, close}
use zookeeper_cpp.Zk.Session.New.{new_cell}
use zookeeper_cpp.Zk.Session.Handlers.{System, watches, completes, fires, Reach, start, next}
use zookeeper_cpp.Zk.Session.Reach.{Reach-complete, Reach-close, Reach-event, IsResolved}
use zookeeper_cpp.Zk.Session.Steps.{Ended, Told}
use zookeeper_cpp.Zk.Watch.{
  data_watcher, Watcher, make_watcher, deliver_event, deliver_raw, as_request,
}
use zookeeper_cpp.Zk.Watch.Deliver.{IsConsistent, deliver_raw_lem, has_value}
use zookeeper_cpp.Zk.Zoo.{Zoo, RawStat, IsDocumented}

abbrev pub the_zoo : Zoo
the_zoo = record {
  operation_timeout = neg 7;
  connection_loss = neg 4;
  invalid_callback = neg 113;
  invalid_acl = neg 114;
  bad_arguments = neg 8;
  session_moved = neg 118;
  not_connected_state = pos 999;
  connecting_state = pos 1;
  associating_state = pos 2;
}

the_zoo-IsDocumented : IsDocumented the_zoo
the_zoo-IsDocumented = record {
  loss_is = refl;
  arguments_is = refl;
  connecting_is = refl;
  timeout_ne_ok = λ e. cc e;
  callback_ne_ok = λ e. cc e;
  acl_ne_ok = λ e. cc e;
  moved_ne_ok = λ e. cc e;
}

zero_is_ok : error_code_from_raw the_zoo (pos 0) ≡ Code.ok
unfolding error_code_from_raw
zero_is_ok = refl

new-IsConsistent : IsConsistent (make_watcher data_watcher)
unfolding make_watcher
new-IsConsistent = record {
  data_unset = λ _. refl;
  data_set = λ e. cc e;
  event_unset = λ _. refl;
  event_set = λ e. cc e;
}

not_delivered : (make_watcher data_watcher).data_delivered ≡ false
unfolding make_watcher
not_delivered = refl

not_taken : (make_watcher data_watcher).event_taken ≡ false
unfolding make_watcher
not_taken = refl

abbrev pub a_stat : RawStat
a_stat = record {
  czxid = pos 1;
  mzxid = pos 2;
  ctime = pos 3;
  mtime = pos 4;
  version = pos 5;
  cversion = pos 6;
  aversion = pos 7;
  ephemeral_owner = pos 0;
  data_length = pos 2;
  num_children = pos 0;
  pzxid = pos 8;
}

-- A connection, one watch of it, and its completion.
abbrev new_system : System
new_system = record {
  conn = record { handle = some 7; cells = []; past = []; watches = [] };
  awaiting = [];
  registered = [];
}

abbrev watching_conn : Conn
watching_conn = record {
  handle = some 7;
  cells = new_cell data_watcher ∷ [];
  past = [];
  watches = (0, 0) ∷ [];
}

abbrev watching_system : System
watching_system = record {
  conn = watching_conn;
  awaiting = (0, data_watcher) ∷ [];
  registered = [];
}

watching-Reach : Reach the_zoo watching_system
unfolding watch place error_code_from_raw
watching-Reach = next (start (some 7)) (watches data_watcher (pos 0) 0 watching_conn (λ h. h) refl)

abbrev told_watcher : Watcher
told_watcher = record (make_watcher data_watcher) {
  data_promise = value (get_result (codes "hi") (stat_from_raw a_stat));
  data_delivered = true;
  event_taken = true;
}

abbrev told_conn : Conn
told_conn = record watching_conn { cells = (record { alive = true; watcher = told_watcher }) ∷ [] }

abbrev told_system : System
told_system = record { conn = told_conn; awaiting = []; registered = (0, data_watcher) ∷ [] }

told-Reach : Reach the_zoo told_system
unfolding complete_watch error_code_from_raw deliver_raw make_watcher
told-Reach =
    next watching-Reach
      (completes 0 data_watcher [] (pos 0) (codes "hi", a_stat) told_conn here refl)

-- The event of the watch, and a second watch whose watcher gets the same address.
abbrev ended_watcher : Watcher
ended_watcher = record told_watcher {
  event_promise = value (record { kind = pos 3; state = pos 3 });
  event_delivered = true;
}

abbrev ended_conn : Conn
ended_conn = record {
  handle = some 7;
  cells = (record { alive = false; watcher = ended_watcher }) ∷ [];
  past = [];
  watches = [];
}

abbrev again_conn : Conn
again_conn = record watching_conn {
  past = (record { alive = false; watcher = ended_watcher }) ∷ [];
}

abbrev again_system : System
again_system = record { conn = again_conn; awaiting = (0, data_watcher) ∷ []; registered = [] }

ended-Reach : Reach the_zoo (record { conn = ended_conn; awaiting = []; registered = [] })
unfolding deliver_watch deliver_event state_from_raw make_watcher extract
ended-Reach = next told-Reach (fires 0 data_watcher [] (pos 3) (pos 3) ended_conn here refl)

again-Reach : Reach the_zoo again_system
unfolding watch place error_code_from_raw
again-Reach = next ended-Reach (watches data_watcher (pos 0) 0 again_conn (λ h. h) refl)

Reach-complete_example :
    (c : Conn) × (complete_watch the_zoo data_watcher (pos 0) (codes "hi", a_stat) 0 again_conn
      ≡ some c)
    × Told (callback the_zoo (as_request data_watcher) (pos 0) (codes "hi", a_stat)) 0 c.cells
Reach-complete_example = Reach-complete {rest = []} (pos 0) (codes "hi", a_stat) again-Reach here

Reach-event_example :
    (c : Conn) × (deliver_watch the_zoo (pos 3) (pos 3) 0 told_conn ≡ some c)
    × Ended
        (record { kind = event_from_raw (pos 3); state = state_from_raw the_zoo (pos 3) })
        0
        c.cells
    × ((type2 state2 : ℤ) → deliver_watch the_zoo type2 state2 0 c ≡ some c)
Reach-event_example = Reach-event (pos 3) (pos 3) told-Reach (inl refl) (λ h. h)

Reach-close_example :
    (c : Conn) × (close the_zoo (pos 0) told_conn ≡ some (ok c))
    × (c.handle ≡ none)
    × (c.watches ≡ [])
    × All IsResolved c.cells
    × All IsResolved c.past
Reach-close_example = Reach-close (pos 0) told-Reach refl refl zero_is_ok

-- An event of the session destroys the watcher, and the library goes on to have its address. If the next
-- watcher is made there, an event for the old one destroys it, and its completion then uses it.
abbrev after_session : Option Conn
after_session = deliver_watch the_zoo (neg 1) (pos 3) 0 told_conn

abbrev then_watch : Option Conn → Option Conn
then_watch none = none
then_watch (some c) = watch the_zoo data_watcher (pos 0) 0 c

abbrev then_event : Option Conn → Option Conn
then_event none = none
then_event (some c) = deliver_watch the_zoo (pos 3) (pos 3) 0 c

abbrev then_complete : Option Conn → Option Conn
then_complete none = none
then_complete (some c) = complete_watch the_zoo data_watcher (pos 0) (codes "hi", a_stat) 0 c

abbrev is_fault : Option Conn → Bool
is_fault none = true
is_fault (some c) = false

same_address :
    (is_fault (then_event (then_watch after_session)) ≡ false)
    × (is_fault (then_complete (then_event (then_watch after_session))) ≡ true)
unfolding deliver_watch deliver_event watch place complete_watch error_code_from_raw deliver_raw
    make_watcher
same_address = (refl, refl)

deliver_raw_lem_example :
    deliver_raw the_zoo data_watcher (pos 0) (codes "hi", a_stat) (make_watcher data_watcher)
    ≡ some (record (make_watcher data_watcher) {
      data_promise = callback the_zoo (as_request data_watcher) (pos 0) (codes "hi", a_stat);
      data_delivered = true;
      event_taken =
          has_value (callback the_zoo (as_request data_watcher) (pos 0) (codes "hi", a_stat));
    })
deliver_raw_lem_example =
    deliver_raw_lem the_zoo data_watcher (pos 0) (codes "hi", a_stat) (make_watcher data_watcher)
      new-IsConsistent not_delivered not_taken

-- One operation, before and after its completion.
abbrev asking_heap : Request.Heap
asking_heap = unset ∷ []

abbrev asking_system : Delivery.System
asking_system = record { heap = asking_heap; pending = (0, Request.get (codes "/a")) ∷ [] }

asking-Reach : Delivery.Reach the_zoo asking_system
unfolding submit error_code_from_raw
asking-Reach = Delivery.next Delivery.start (Delivery.submits (Request.get (codes "/a")) (pos 0))

Reach-unset_iff_example :
    (get_elem? asking_heap 0 ≡ some unset) ↔ HasKey 0 ((0, Request.get (codes "/a")) ∷ [])
Reach-unset_iff_example = Reach-unset_iff 0 asking-Reach

Reach-callback_example :
    (0 < 1)
    × (run_callback the_zoo (Request.get (codes "/a")) (pos 0) (codes "hi", a_stat) 0 asking_heap
        ≡ some (
            set asking_heap 0
              (callback the_zoo (Request.get (codes "/a")) (pos 0) (codes "hi", a_stat))))
Reach-callback_example = Reach-callback (pos 0) (codes "hi", a_stat) asking-Reach here
