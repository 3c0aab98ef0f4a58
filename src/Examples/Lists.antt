-- ===== src/Examples/Lists.antt =====
-- Rules, state watches and packages of src/zk.
use zookeeper_cpp.Base.{
  true, false, ◌↔◌, [], ◌∷◌, none, some, ◌≡◌, ◌≢◌, ◌⊎◌, refl, arith, All, IsAll-intro, map, codes,
}
use zookeeper_cpp.Acl.Compare.{rule_at_most, rule_above, rule_at_least, rule_less_order}
use zookeeper_cpp.Acl.Rule.{AclRule, less_text, rule_less}
use zookeeper_cpp.Error.Result.{ok}
use zookeeper_cpp.Types.State
use zookeeper_cpp.Server.Ordered.{lookup}
use zookeeper_cpp.Server.Registry.{
  Classpath, Registry, register_classpath_server, unregister_server, unregister-register,
}
use zookeeper_cpp.Zk.AclList.{acl_from_raw-with_acl, is_not_null}
use zookeeper_cpp.Zk.Adaptors.{with_acl, acl_from_raw}
use zookeeper_cpp.Zk.Promise.{unset}
use zookeeper_cpp.Zk.StateWatch.{
  StateWatches, fresh, watched, watch_state, on_session_event, outcome,
}
use zookeeper_cpp.Zk.StateWatch.Settled.{settle, StateReach-event}
use zookeeper_cpp.Examples.Sessions.{the_zoo}

abbrev first_rule : AclRule
first_rule = record { scheme = codes "auth"; id = codes "a"; permissions = 1 }

abbrev second_rule : AclRule
second_rule = record { scheme = codes "auth"; id = codes "b"; permissions = 1 }

abbrev third_rule : AclRule
third_rule = record { scheme = codes "world"; id = codes "anyone"; permissions = 31 }

rule_less_order_example :
    ((rule_less first_rule second_rule ≡ true)
      ⊎ ((rule_less second_rule first_rule ≡ true) ⊎ (first_rule ≡ second_rule)))
    × (rule_less first_rule first_rule ≡ false)
    × ((rule_less first_rule second_rule ≡ false)
        ⊎ ((rule_less second_rule third_rule ≡ false) ⊎ (rule_less first_rule third_rule ≡ true)))
    × ((rule_at_most first_rule second_rule ≡ true)
        ↔ ((rule_less first_rule second_rule ≡ true) ⊎ (first_rule ≡ second_rule)))
    × ((rule_at_least first_rule second_rule ≡ true)
        ↔ ((rule_above first_rule second_rule ≡ true) ⊎ (first_rule ≡ second_rule)))
rule_less_order_example = rule_less_order first_rule second_rule third_rule

acl_from_raw-with_acl_example :
    acl_from_raw (with_acl (first_rule ∷ third_rule ∷ [])) ≡ first_rule ∷ third_rule ∷ []
acl_from_raw-with_acl_example = acl_from_raw-with_acl (first_rule ∷ third_rule ∷ []) (omega arith) (
  (
    IsAll-intro is_not_null (codes "auth") refl,
    IsAll-intro is_not_null (codes "a") refl,
    omega arith,
  ),
  (
    (
      IsAll-intro is_not_null (codes "world") refl,
      IsAll-intro is_not_null (codes "anyone") refl,
      omega arith,
    ),
    tt,
  ),
)

abbrev one_waiting : StateWatches
one_waiting = (watch_state (record { promises = []; waiting = [] })).0

StateReach-event_example :
    (on_session_event State.connected one_waiting
      ≡ some (record {
        promises = map (settle (outcome State.connected)) one_waiting.promises;
        waiting = [];
      }))
    × All (λ p. p ≢ unset) (map (settle (outcome State.connected)) one_waiting.promises)
StateReach-event_example = StateReach-event {zoo = the_zoo} State.connected (watched fresh)

empty_lookup : lookup {A = Classpath} less_text (codes "3.4.10") [] ≡ none
unfolding lookup
empty_lookup = refl

unregister-register_example :
    (with_it : Registry) × (register_classpath_server (codes "3.4.10") (codes "a.jar" ∷ []) []
      ≡ ok (with_it, codes "3.4.10"))
    × (lookup less_text (codes "3.4.10") with_it ≡ some (codes "a.jar" ∷ []))
    × (unregister_server (codes "3.4.10") with_it ≡ ([], true))
unregister-register_example =
    unregister-register (codes "3.4.10") (codes "a.jar" ∷ []) [] empty_lookup
