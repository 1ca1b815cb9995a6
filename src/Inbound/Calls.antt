-- ===== src/Inbound/Calls.antt =====
-- Histories of calls of the registry, from NewClientRegistry on.
use bigfred.Base.{ℕ, ℤ, Bool, String, Option, List, [], ◌∷◌}
use bigfred.Inbound.Types.{UdpAddr, Net, RemoteSessionWire, ClientRegistry}
use bigfred.Inbound.Registry.{
  touch, touch_by_endpoint, set_idle_braked, clear_idle_braked, remove, set_session,
  set_heartbeat_monitor, unsubscribe_loco, subscribe_loco, set_last_active_loco, mark_synced,
  touch_last_seen, mark_seen_dirty, clear_seen_dirty, drain_seen_dirty, evict_idle,
}

pub data Call : Type 0 where
  touches : String → UdpAddr → Bool → Call
  touches_by_endpoint : String → String → Option UdpAddr → Call
  clears_idle_braked removes marks_synced touches_last_seen : String → Call
  sets_idle_braked sets_heartbeat_monitor : String → Bool → Call
  sets_session : String → Option RemoteSessionWire → Call
  unsubscribes subscribes sets_last_active : String → ℕ → Call
  marks_seen_dirty : String → ℤ → Call
  clears_seen_dirty : List String → Call
  drains_seen_dirty : Call
  evicts_idle : ℕ → Call

module _ (net : Net) where
  -- One call at a time `now`.
  unfoldable pub step : ClientRegistry → ℕ × Call → ClientRegistry
  step r (now, Call.touches protocol addr sticky) = touch net protocol addr now sticky r
  step r (now, Call.touches_by_endpoint protocol endpoint remote) =
      touch_by_endpoint protocol endpoint remote now r
  step r (now, Call.clears_idle_braked key) = clear_idle_braked key r
  step r (now, Call.removes key) = remove key r
  step r (now, Call.marks_synced key) = mark_synced key now r
  step r (now, Call.touches_last_seen key) = touch_last_seen key now r
  step r (now, Call.sets_idle_braked key braked) = set_idle_braked key braked r
  step r (now, Call.sets_heartbeat_monitor key on) = set_heartbeat_monitor key on r
  step r (now, Call.sets_session key session) = set_session key session r
  step r (now, Call.unsubscribes key addr) = unsubscribe_loco key addr r
  step r (now, Call.subscribes key addr) = subscribe_loco key addr r
  step r (now, Call.sets_last_active key addr) = set_last_active_loco key addr r
  step r (now, Call.marks_seen_dirty key ts) = mark_seen_dirty key ts r
  step r (now, Call.clears_seen_dirty keys) = clear_seen_dirty keys r
  step r (now, Call.drains_seen_dirty) = (drain_seen_dirty r).0
  step r (now, Call.evicts_idle cutoff) = (evict_idle cutoff r).0

  unfoldable pub run : ClientRegistry → List (ℕ × Call) → ClientRegistry
  run r [] = r
  run r (x ∷ rest) = run (step r x) rest
