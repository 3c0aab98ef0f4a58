-- ===== src/Examples/Races.antt =====
-- Deliveries of src/zk/connection_zk.cpp at the same time.
use zookeeper_cpp.Base.{ℕ, true, false, List, [], ◌∷◌, some, ◌≡◌, refl, codes, All}
use zookeeper_cpp.Types.EventType
use zookeeper_cpp.Types.State
use zookeeper_cpp.Zk.Promise.{Promise, value, is_unset}
use zookeeper_cpp.Zk.Request.{Reply, create_result}
use zookeeper_cpp.Zk.Watch.{Event}
use zookeeper_cpp.Zk.Watch.Race.{
  Shared, fresh, Thread, deliver_event_thread, deliver_data_thread, data_done, event_done, run,
  step, step_thread,
}
use zookeeper_cpp.Zk.Watch.Race.Delivered.{run-delivered, ends_data, ends_event}
use zookeeper_cpp.Zk.Watch.Race.Invariant.{IsStart, starts_event, starts_data, run-safe}
use zookeeper_cpp.Zk.Watch.Race.Moves.{any_event}

abbrev closing : Event
closing = record { kind = EventType.session; state = State.closed }

abbrev changing : Event
changing = record { kind = EventType.changed; state = State.connected }

abbrev a_reply : Promise Reply
a_reply = value (create_result (codes "/a"))

-- A close, a result, and an event, of which the first loads its flag before the others start.
abbrev three_threads : List Thread
three_threads =
    deliver_event_thread closing ∷ deliver_data_thread a_reply ∷ deliver_event_thread changing ∷ []

abbrev a_schedule : List ℕ
a_schedule = 0 ∷ 1 ∷ 0 ∷ 2 ∷ 2 ∷ 1 ∷ 0 ∷ 2 ∷ []

three-IsStart : All IsStart three_threads
three-IsStart = (starts_event closing, (starts_data a_reply refl, (starts_event changing, tt)))

run-safe_example :
    (us : List Thread) × (u : Shared) × (run a_schedule (three_threads, fresh) ≡ some (us, u))
run-safe_example = run-safe a_schedule three_threads three-IsStart

abbrev all_delivered : Shared
all_delivered = record {
  data_delivered = true;
  data_promise = a_reply;
  event_delivered = true;
  event_promise = value changing;
}

a_run :
    run a_schedule (three_threads, fresh)
    ≡ some (event_done ∷ data_done ∷ event_done ∷ [], all_delivered)
unfolding run step step_thread
a_run = refl

run-delivered_example :
    (is_unset all_delivered.data_promise ≡ false) × (is_unset all_delivered.event_promise ≡ false)
unfolding any_event
run-delivered_example =
    run-delivered a_schedule three_threads (event_done ∷ data_done ∷ event_done ∷ []) all_delivered
      three-IsStart refl a_run (ends_event, (ends_data, (ends_event, tt)))
