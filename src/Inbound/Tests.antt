-- ===== src/Inbound/Tests.antt =====
-- Runs of the registry, and the theorems at concrete registries.
use bigfred.Base.{
  ℕ, ℤ, ◌≡◌, ◌⊎◌, refl, true, false, String, none, some, List, [], ◌∷◌, lookup, insert, erase,
  nat_key, string_key, contains, maybe,
}
use bigfred.Inbound.Types.{Net, Client, ClientRegistry, zero_addr, new_client}
use bigfred.Inbound.Registry
use bigfred.Inbound.Calls.{Call, step, run}
use bigfred.Inbound.Index.{IsQueue}
use bigfred.Inbound.Histories.{run-is_subscriber, run-IsQueue}
use bigfred.Inbound.Eviction.{is_stale, evict_idle-takes_stale}
use bigfred.Inbound.Seen.{clear_seen_dirty-drops_newer}

abbrev net : Net
net = record {
  ip_string = λ ip. "10.0.0.2";
  itoa = λ port. "21105";
  join_host_port = λ host port. host;
}

abbrev handset : String
handset = "withrottle:HU1"

-- One handset that subscribes to two locomotives, and drives the second.
abbrev calls : List (ℕ × Call)
calls =
    (10, Call.touches_by_endpoint "withrottle" "HU1" none)
    ∷ (11, Call.subscribes handset 3)
    ∷ (12, Call.sets_last_active handset 4)
    ∷ (13, Call.marks_seen_dirty handset (ℤ.pos 13))
    ∷ []

abbrev registry : ClientRegistry
registry = run net Registry.new_client_registry calls

abbrev client_of : String → ClientRegistry → Client
client_of key r = maybe (new_client "" "" "" zero_addr 0) (λ c. c) (lookup key r.clients)

-- Everything that a run calls.
program : Unit {0}
unfolding run step lookup insert erase contains Registry.new_client_registry Registry.update_client
    Registry.add_subscriber Registry.remove_subscriber Registry.remove_subscriptions
    Registry.subscribe_loco_locked Registry.last_loco Registry.current_loco_locked Registry.register
    Registry.touch Registry.touch_by_endpoint Registry.set_idle_braked Registry.clear_idle_braked
    Registry.get Registry.remove Registry.set_session Registry.session Registry.is_paired
    Registry.set_heartbeat_monitor Registry.unsubscribe_loco Registry.drop_trimmed
    Registry.subscribe_client Registry.subscribe_loco Registry.set_last_active_loco
    Registry.current_loco Registry.subscribed_to Registry.is_subscriber Registry.subscribers
    Registry.needs_sync Registry.mark_synced Registry.touch_last_seen Registry.mark_seen_dirty
    Registry.peek_seen_dirty Registry.clear_seen_dirty Registry.drain_seen_dirty Registry.evict_keys
    Registry.evict_idle Registry.len
program = tt

drives_4 : Registry.current_loco handset registry ≡ 4
unfolding program
drives_4 = refl

run-is_subscriber_example :
    Registry.is_subscriber 3 handset registry ≡ Registry.subscribed_to handset 3 registry
run-is_subscriber_example = run-is_subscriber net calls 3 handset

run-IsQueue_example : IsQueue (client_of handset registry).subscribed_locos
unfolding program
run-IsQueue_example = run-IsQueue net calls handset (client_of handset registry) refl

evict_idle-takes_stale_example :
    let t = Registry.evict_idle 20 registry in
    ((is_stale 20 (lookup handset registry.clients) ≡ true)
      × (lookup handset t.0.clients ≡ none)
      × (contains handset t.1 ≡ true))
    ⊎ ((is_stale 20 (lookup handset registry.clients) ≡ false)
        × (lookup handset t.0.clients ≡ lookup handset registry.clients)
        × (contains handset t.1 ≡ false))
evict_idle-takes_stale_example = evict_idle-takes_stale 20 handset registry

clear_seen_dirty-drops_newer_example :
    let peeked = Registry.peek_seen_dirty registry in
    (lookup handset peeked ≡ some (ℤ.pos 13))
    × (lookup handset
          (Registry.clear_seen_dirty
            (Registry.keys peeked)
            (Registry.mark_seen_dirty handset (ℤ.pos 15) registry)).dirty_seen
        ≡ none)
unfolding program
clear_seen_dirty-drops_newer_example =
    clear_seen_dirty-drops_newer handset (ℤ.pos 13) (ℤ.pos 15) registry refl
