-- ===== src/Inbound/Histories.antt =====
-- The index after any history of calls.
use bigfred.Base.{ℕ, ◌≡◌, refl, String, some, List, [], ◌∷◌, lookup, false, string_key}
use bigfred.Inbound.Types.{Net, Client, ClientRegistry}
use bigfred.Inbound.Registry.{
  new_client_registry, touch, touch_by_endpoint, set_idle_braked, clear_idle_braked, set_session,
  set_heartbeat_monitor, mark_synced, touch_last_seen, drain_seen_dirty, evict_idle, subscribed_to,
  is_subscriber, keys,
}
use bigfred.Inbound.Index.{IsQueue, IsIndexed}
use bigfred.Inbound.Methods.{
  update_client-IsIndexed, register-IsIndexed, remove-IsIndexed, unsubscribe_loco-IsIndexed,
  subscribe_loco-IsIndexed, set_last_active_loco-IsIndexed, mark_seen_dirty-IsIndexed,
  clear_seen_dirty-IsIndexed, evict_keys-IsIndexed,
}
use bigfred.Inbound.Calls.{Call, step, run}

pub new-IsIndexed : IsIndexed new_client_registry
unfolding new_client_registry is_subscriber subscribed_to lookup
new-IsIndexed = record { agree = λ a k. refl; queues = λ k c e. absurd (cc e) }

module _ (net : Net) where
  -- Every call keeps the index in agreement with the queues, and every queue within its limit.
  pub step-IsIndexed : (r : ClientRegistry) (x : ℕ × Call) → IsIndexed r → IsIndexed (step net r x)
  unfolding step touch touch_by_endpoint set_idle_braked clear_idle_braked set_session
      set_heartbeat_monitor mark_synced touch_last_seen drain_seen_dirty evict_idle
  step-IsIndexed r (now, Call.touches protocol addr sticky) v = register-IsIndexed _ r v _ _ _ _ _
  step-IsIndexed r (now, Call.touches_by_endpoint protocol endpoint remote) v =
      register-IsIndexed _ r v _ _ _ _ _
  step-IsIndexed r (now, Call.clears_idle_braked key) v =
      update_client-IsIndexed key r v (λ c. record c { idle_braked = false }) (λ c. refl)
  step-IsIndexed r (now, Call.removes key) v = remove-IsIndexed key r v
  step-IsIndexed r (now, Call.marks_synced key) v =
      update_client-IsIndexed key r v (λ c. record c { synced_at = now }) (λ c. refl)
  step-IsIndexed r (now, Call.touches_last_seen key) v =
      update_client-IsIndexed key r v (λ c. record c { last_seen = now }) (λ c. refl)
  step-IsIndexed r (now, Call.sets_idle_braked key braked) v =
      update_client-IsIndexed key r v (λ c. record c { idle_braked = braked }) (λ c. refl)
  step-IsIndexed r (now, Call.sets_heartbeat_monitor key on) v =
      update_client-IsIndexed key r v (λ c. record c { heartbeat_monitor = on }) (λ c. refl)
  step-IsIndexed r (now, Call.sets_session key session) v =
      update_client-IsIndexed key r v (λ c. record c { session = session }) (λ c. refl)
  step-IsIndexed r (now, Call.unsubscribes key addr) v = unsubscribe_loco-IsIndexed key r v addr
  step-IsIndexed r (now, Call.subscribes key addr) v = subscribe_loco-IsIndexed key r v addr
  step-IsIndexed r (now, Call.sets_last_active key addr) v =
      set_last_active_loco-IsIndexed key r v addr
  step-IsIndexed r (now, Call.marks_seen_dirty key ts) v = mark_seen_dirty-IsIndexed key ts r v
  step-IsIndexed r (now, Call.clears_seen_dirty ks) v = clear_seen_dirty-IsIndexed ks r v
  step-IsIndexed r (now, Call.drains_seen_dirty) v =
      clear_seen_dirty-IsIndexed (keys r.dirty_seen) r v
  step-IsIndexed r (now, Call.evicts_idle cutoff) v =
      evict_keys-IsIndexed cutoff (keys r.clients) r v

  run-IsIndexed :
      (r : ClientRegistry) (calls : List (ℕ × Call)) → IsIndexed r → IsIndexed (run net r calls)
  unfolding run
  run-IsIndexed r [] v = v
  run-IsIndexed r (x ∷ rest) v = run-IsIndexed (step net r x) rest (step-IsIndexed r x v)

  -- After any history of calls from NewClientRegistry on, a key is among the subscribers of an
  -- address exactly when SubscribedTo answers that its client subscribes to the address.
  pub run-is_subscriber :
      (calls : List (ℕ × Call)) (addr : ℕ) (key : String)
      → let r = run net new_client_registry calls in
        is_subscriber addr key r ≡ subscribed_to key addr r
  run-is_subscriber calls = (run-IsIndexed new_client_registry calls new-IsIndexed).agree

  -- After any history of calls from NewClientRegistry on, a client's queue holds no address twice
  -- and at most 16 addresses.
  pub run-IsQueue :
      (calls : List (ℕ × Call)) (key : String) (c : Client)
      → lookup key (run net new_client_registry calls).clients ≡ some c
      → IsQueue c.subscribed_locos
  run-IsQueue calls = (run-IsIndexed new_client_registry calls new-IsIndexed).queues
