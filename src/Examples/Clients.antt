-- ===== src/Examples/Clients.antt =====
-- Clients of src/zk/client.cpp.
use zookeeper_cpp.Base.{ℕ, pos, neg, [], ◌∷◌, some, ◌≡◌, ◌==ℤ◌, if◌then◌else◌}
use zookeeper_cpp.Error.Result.{ok}
use zookeeper_cpp.Examples.Sessions.{the_zoo}
use zookeeper_cpp.Types.State
use zookeeper_cpp.Zk.Client.{client, connect, future_of}
use zookeeper_cpp.Zk.Client.Connects.{Events, run_events, decided, first_state, connect-decided}
use zookeeper_cpp.Zk.Promise.{value}
use zookeeper_cpp.Zk.StateWatch.{StateWatches, fresh}

-- An event of an entry, and then the session is connected.
abbrev some_events : Events
some_events = (pos 3, pos 3) ∷ (neg 1, pos 3) ∷ []

abbrev no_watches : StateWatches
no_watches = record { promises = []; waiting = [] }

connect-decided_example :
    (t : StateWatches) × (run_events the_zoo some_events
        (connect {A = ℕ} (ok 7) State.connecting no_watches).0
      ≡ some t)
    × (future_of (connect {A = ℕ} (ok 7) State.connecting no_watches).1 t ≡ (
        if State.connecting ==ℤ State.connected
        then value client
        else decided (first_state the_zoo some_events)))
connect-decided_example = connect-decided the_zoo {A = ℕ} 7 State.connecting some_events fresh
