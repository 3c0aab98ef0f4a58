-- ===== src/Zk/Watch/Deliver.antt =====
-- What the deliveries do to a watcher whose flags agree with its promises.
use zookeeper_cpp.Base.{ℤ, Bool, true, false, some, ◌≡◌, ◌≢◌, arith}
use zookeeper_cpp.Error.Code
use zookeeper_cpp.Error.Exn.{throw_error}
use zookeeper_cpp.Zk.Promise.{Promise, unset, value, exception}
use zookeeper_cpp.Zk.Request.{Reply, callback}
use zookeeper_cpp.Zk.Zoo.{Zoo}
use zookeeper_cpp.Zk.Watch.{
  Event, WatchKind, data_watcher, Watcher, deliver_data, deliver_event, WatchPayload, as_request,
  deliver_raw,
}

-- A promise has a result exactly if its flag is set.
pub record IsConsistent (w : Watcher) : Type 0 where
  pub data_unset : w.data_delivered ≡ false → w.data_promise ≡ unset
  pub data_set : w.data_delivered ≡ true → w.data_promise ≢ unset
  pub event_unset : w.event_delivered ≡ false → w.event_promise ≡ unset
  pub event_set : w.event_delivered ≡ true → w.event_promise ≢ unset

deliver_data_lem :
    (r : Promise Reply) (w : Watcher)
    → w.data_delivered ≡ false
    → w.data_promise ≡ unset
    → deliver_data r w ≡ some (record w { data_promise = r; data_delivered = true })
unfolding deliver_data
deliver_data_lem r w d p = rw (d, p, deliver_data)

-- The data promise after an event: what it had, or the exception `closed`.
abbrev pub data_after : Watcher → Promise Reply
data_after w = elim w.data_delivered [
  | true ↦ w.data_promise
  | false ↦ exception (throw_error Code.closed)
]

pub deliver_event_lem :
    (ev : Event) (w : Watcher)
    → IsConsistent w
    → w.event_delivered ≡ false
    → deliver_event ev w
      ≡ some (record w {
        event_delivered = true;
        event_promise = value ev;
        data_delivered = true;
        data_promise = data_after w;
      })
unfolding deliver_event
deliver_event_lem ev w v e = ground arith

abbrev pub has_value : Promise Reply → Bool
has_value unset = false
has_value (value r) = true
has_value (exception e) = false

-- The completion of a watch's request, with any code and data, on a watcher that waits for it: the data
-- promise gets what the callback of the plain operation gives for that code and data, and the event's
-- future is handed out exactly if that is a value.
pub deliver_raw_lem :
    (zoo : Zoo) (k : WatchKind) (rc_in : ℤ) (payload : WatchPayload k) (w : Watcher)
    → IsConsistent w
    → w.data_delivered ≡ false
    → w.event_taken ≡ false
    → deliver_raw zoo k rc_in payload w
      ≡ some (record w {
        data_promise = callback zoo (as_request k) rc_in payload;
        data_delivered = true;
        event_taken = has_value (callback zoo (as_request k) rc_in payload);
      })
unfolding deliver_raw callback
deliver_raw_lem zoo data_watcher rc_in payload w v dd et = ground arith
deliver_raw_lem zoo _ rc_in payload w v dd et = ground arith
