-- ===== src/LocoStore/Tests.antt =====
-- A store with one locomotive, and the theorems at it.
use bigfred.Base.{
  ◌≡◌, ◌≢◌, ◌⊎◌, refl, true, false, some, none, [], lookup, insert, erase, nat_key, arith,
}
use bigfred.LocoStore.Store
use bigfred.LocoStore.Store.{LocoObservation, LocoStateStore, LocoStateWire}
use bigfred.LocoStore.Observations.{apply_observation-keeps_command, apply_observation-late}
use bigfred.LocoStore.Flushes.{finish_flush-set_speed}

-- Everything that a call goes through.
program : Unit {0}
unfolding lookup insert erase Store.entry Store.snapshot Store.command_speed Store.set_speed
    Store.observe_window Store.observe_motion Store.set_function_at Store.function_at
    Store.observe_functions Store.observe_entry Store.apply_observation Store.begin_flush
    Store.finish_flush
program = tt

-- User 7 has just commanded speed 40.
abbrev store : LocoStateStore
store = Store.set_speed 3 40 true 7 "ws" 1_000_000_000 (record { entries = []; dirty = [] })

-- A late report of speed 20.
abbrev late : LocoObservation
late = record {
  addr = 3;
  has_speed = true;
  speed = 20;
  has_forward = false;
  forward = false;
  function_mask = 0;
  function_bits = 0;
}

keeps_40 : (Store.snapshot 3 (Store.apply_observation late "bus" 1_200_000_000 store).0).speed ≡ 40
unfolding program
keeps_40 = refl

apply_observation-keeps_command_example :
    let e = Store.entry 3 store in
    let t = Store.entry 3 (Store.apply_observation late "bus" 1_200_000_000 store).0 in
    (t.snap.speed ≡ e.snap.speed)
    × (t.snap.forward ≡ e.snap.forward)
    × (t.snap.controlled_by_user_id ≡ e.snap.controlled_by_user_id)
    × (t.commanded_at ≡ e.commanded_at)
unfolding program
apply_observation-keeps_command_example =
    apply_observation-keeps_command late "bus" 1_200_000_000 store (omega arith) (omega arith) refl

-- A handset beside the server slows the locomotive down at 9 s, and again at 10 s.
abbrev later : LocoObservation
later = record {
  addr = 3;
  has_speed = true;
  speed = 10;
  has_forward = false;
  forward = false;
  function_mask = 0;
  function_bits = 0;
}

apply_observation-late_example :
    let first = (Store.apply_observation late "bus" 9_000_000_000 store).0 in
    let second = (Store.apply_observation later "bus" 10_000_000_000 first).0 in
    ((Store.entry 3 first).snap.controlled_by_user_id
      ≡ (Store.entry 3 store).snap.controlled_by_user_id)
    × ((Store.entry 3 second).snap.controlled_by_user_id ≡ 0)
unfolding program
apply_observation-late_example =
    apply_observation-late late later "bus" "bus" 9_000_000_000 10_000_000_000 store (omega arith)
      (omega arith) refl refl refl

finish_flush-set_speed_example :
    let snap = Store.snapshot 3 store in
    let t = Store.finish_flush 3 snap true (Store.set_speed 3 60 true 7 "ws" 1_000_400_000 store) in
    ((Store.unix_milli 1_000_400_000 ≢ snap.at) × (lookup 3 t.dirty ≡ some tt))
    ⊎ ((Store.unix_milli 1_000_400_000 ≡ snap.at) × (lookup 3 t.dirty ≡ none))
finish_flush-set_speed_example =
    finish_flush-set_speed 3 60 7 1_000_400_000 true "ws" (Store.snapshot 3 store) store
