-- ===== src/Slotlease/Tests.antt =====
-- Runs of the leaser, and the theorems at concrete ledgers.
use bigfred.Base.{
  ℕ, ℤ, ◌+◌, ◌-◌, ◌≡◌, ◌≢◌, ◌≤◌, ◌<◌, ◌⊎◌, refl, true, false, none, some, List, [], ◌∷◌, arith,
  lookup, insert, erase, total, nat_key, string_key, contains, maybe, has,
}
use bigfred.Slotlease.Types.{
  Lease, Leaser, HolderKey, ReleaseReason, LeaseError, SlotStation, Components, Effect, Metric,
  holder_key,
}
use bigfred.Slotlease.Ledger
use bigfred.Slotlease.Release
use bigfred.Slotlease.Reserve
use bigfred.Slotlease.Select
use bigfred.Slotlease.Sweep
use bigfred.Slotlease.Calls.{Config, new, Call, step, run}
use bigfred.Slotlease.Counts.{per_user_of, held}
use bigfred.Slotlease.Headroom.{ensure_budget_headroom-held}
use bigfred.Slotlease.Exhaustion.{ensure_budget_headroom-answer, grace_count}
use bigfred.Slotlease.Stops.{
  releases_of, taken_of, Extends, stop_direction, stop_and_release-stops_first,
  stop_and_release-outcome,
}
use bigfred.Slotlease.Expiry.{sweep_deferred-takes_overdue}
use bigfred.Slotlease.SingleSession.{reserve-per_user-le}
use bigfred.Slotlease.AtCap.{reserve-evicts_nothing, reserve_held-evicts}
use bigfred.Slotlease.Leak.{acquired, finish_acquire-keeps_slot}
use bigfred.Slotlease.Consistency.{IsConsistent}
use bigfred.Slotlease.Consistency.Histories.{run-per_user, run-IsConsistent, new-IsConsistent}

-- The station acquires every slot and keeps every slot that it is asked to release.
abbrev station : SlotStation
station = record { acquire_slot = λ past a. none; release_slot = λ past a. some LeaseError.other }

abbrev parts : Components
parts = record {
  station = some station;
  writer = some (λ past a speed forward emergency. none);
  store = none;
  hub = false;
  gate = none;
}

abbrev config : Config
config = record {
  max_per_user = ℤ.pos 2;
  max_slots = ℤ.pos 2;
  idle_timeout = ℤ.pos 60;
  idle_timeout_disabled = false;
  release_grace = ℤ.pos 5;
  switcher_grace = ℤ.pos 50;
}

-- User 7 drives 3, and has left 4, which is in its grace window.
abbrev switched : List (ℕ × Call)
switched =
    (100, Call.reserves 7 "a" "ws" 4)
    ∷ (101, Call.observes_in_use 4)
    ∷ (102, Call.deselects_deferred 7 "a" 4)
    ∷ (103, Call.reserves 7 "a" "z21" 3)
    ∷ (104, Call.observes_in_use 3)
    ∷ []

abbrev ledger : Leaser
ledger = run parts (new config) switched

-- Everything that a run calls.
program : Unit {0}
unfolding new run step lookup insert erase total contains Ledger.occupies_slot Ledger.budget_active
    Ledger.has_bigfred_holder Ledger.has_ws_holder Ledger.is_remote_only Ledger.youngest_drive
    Ledger.holder_count_for_user Ledger.append_user_addr Ledger.remove_first Ledger.remove_user_addr
    Ledger.decrement_user Ledger.increment_user Ledger.find_holder Ledger.remove_first_key
    Ledger.without_holder Ledger.remove_holder Ledger.drop_holders Ledger.drop_lease_bookkeeping
    Ledger.evictable_in Ledger.oldest_evictable_addr Release.release_aborted_by_reuse
    Release.retry_release Release.settle_release Release.settle_pending
    Release.release_slot_with_retry Release.stored_forward Release.write_stop Release.broadcast_stop
    Release.estop_before_release Release.stop_and_release Release.stop_and_release_all
    Release.release_scheduled Release.enqueue_release Release.run_release_worker_step
    Release.drain_pending Release.drain_release_pending Reserve.candidates Reserve.insert_newest
    Reserve.sort_newest Reserve.take_chosen Reserve.take_deferred_releases Reserve.mark_releasing
    Reserve.enqueue_all Reserve.evict_grace Reserve.after_take Reserve.headroom_loop
    Reserve.ensure_budget_headroom Reserve.close_lease Reserve.drop_found Reserve.deselect_with
    Reserve.deselect Reserve.deselect_deferred Reserve.gate_allows Reserve.needs_physical_slot
    Reserve.reserve_budget Reserve.reserve_cap Reserve.cancel_release Reserve.add_holder
    Reserve.reserve_holder Reserve.reserve_within Reserve.reserve Select.needs_acquire
    Select.begin_acquire Select.or_switcher_change Select.acquire_failed Select.new_slots
    Select.mark_train Select.call_acquire Select.acquire_succeeded Select.finish_acquire
    Select.select_reserved Select.select Select.deselect_all Select.select_members
    Select.select_train_within Select.train_budget Select.select_train Select.touch_key Select.touch
    Sweep.session_keys Sweep.leave_session Sweep.leave_keys Sweep.leave_leases Sweep.is_idle
    Sweep.sweep_idle_leases Sweep.is_overdue Sweep.sweep_deferred_leases Sweep.on_slot_in_use
    Sweep.on_slot_released Sweep.reconcile_candidates Sweep.reconcile_slot Sweep.reconcile_loop
    Sweep.record_reconciled Sweep.reconcile_slots Sweep.release_session Sweep.sweep_idle
    Sweep.sweep_deferred Sweep.force_release
program = tt

in_grace_count : held 7 ledger.leases ≡ 1
unfolding program
in_grace_count = refl

-- The grace lease goes, and then the slot fits.
evicted_grace : (Reserve.ensure_budget_headroom parts 1 ledger).1 ≡ true
unfolding program
evicted_grace = refl

abbrev lease_of : ℕ → Leaser → Lease
lease_of a s = maybe (Ledger.new_lease a) (λ l. l) (lookup a s.leases)

seven_ne : ◌≢◌ {A = ℕ} 7 0
seven_ne = omega arith

ledger-IsConsistent : IsConsistent ledger
ledger-IsConsistent = run-IsConsistent parts (new config) switched (new-IsConsistent parts config)

run-per_user_example : per_user_of 7 ledger.per_user ≡ held 7 ledger.leases
run-per_user_example = run-per_user parts config switched 7 seven_ne

ensure_budget_headroom-held_example :
    lookup 3 (Reserve.ensure_budget_headroom parts 1 ledger).0.leases ≡ some (lease_of 3 ledger)
unfolding program
ensure_budget_headroom-held_example =
    ensure_budget_headroom-held parts 3 (lease_of 3 ledger) 1 ledger ledger-IsConsistent refl
      (λ e. cc e)

ensure_budget_headroom-answer_example :
    let r = Reserve.ensure_budget_headroom parts 1 ledger in
    ((r.1 ≡ true) × (Ledger.budget_active r.0 + 1 ≤ r.0.max_slots))
    ⊎ ((r.1 ≡ false)
        × (r.0.max_slots < Ledger.budget_active r.0 + 1)
        × ((grace_count r.0 ≡ 0)
            ⊎ (grace_count r.0 + Reserve.default_grace_evict_max ≡ grace_count ledger)))
unfolding program
ensure_budget_headroom-answer_example =
    ensure_budget_headroom-answer parts 1 ledger ledger-IsConsistent (omega arith) (omega arith)

stop_and_release-stops_first_example :
    Extends
      (Effect.set_speed 5 0 (stop_direction parts 5 ledger) true
        ∷ Effect.metric Metric.release_estop
        ∷ ledger.effects)
      (Release.stop_and_release parts 5 ReleaseReason.idle_timeout ledger).effects
unfolding program
stop_and_release-stops_first_example =
    stop_and_release-stops_first parts 5 ReleaseReason.idle_timeout ledger
      (λ past a speed forward emergency. none) refl refl

stop_and_release-outcome_example :
    let t = Release.stop_and_release parts 5 ReleaseReason.idle_timeout ledger in
    let asked = releases_of 5 ledger.effects in
    ((t.release_pending ≡ ledger.release_pending)
      × (asked < releases_of 5 t.effects)
      × (releases_of 5 t.effects ≤ asked + Release.slot_release_retry_count)
      × (taken_of station 5 t.effects ≡ taken_of station 5 ledger.effects + 1))
    ⊎ ((t.release_pending ≡ insert 5 tt ledger.release_pending)
        × (releases_of 5 t.effects ≡ asked + Release.slot_release_retry_count)
        × (taken_of station 5 t.effects ≡ taken_of station 5 ledger.effects))
unfolding program
stop_and_release-outcome_example =
    stop_and_release-outcome parts 5 ReleaseReason.idle_timeout ledger station refl refl

sweep_deferred-takes_overdue_example :
    (((lease_of 4 ledger).release_at ≢ 0)
      × ((lease_of 4 ledger).release_at ≤ 1000)
      × (lookup 4 (Sweep.sweep_deferred parts 1000 ledger).leases ≡ none))
    ⊎ ((((lease_of 4 ledger).release_at ≡ 0) ⊎ (1000 < (lease_of 4 ledger).release_at))
        × (lookup 4 (Sweep.sweep_deferred parts 1000 ledger).leases ≡ some (lease_of 4 ledger)))
unfolding program
sweep_deferred-takes_overdue_example =
    sweep_deferred-takes_overdue parts 1000 4 ledger (lease_of 4 ledger)
      ledger-IsConsistent.distinct refl

abbrev driver : HolderKey
driver = record { user_id = 7; session = "a"; source = "z21" }

reserve-per_user-le_example :
    per_user_of 7 (Reserve.reserve parts 7 "a" "ws" 9 200 ledger).0.per_user ≤ ledger.max_per_user
unfolding program
reserve-per_user-le_example =
    reserve-per_user-le parts 7 "a" "ws" 9 200 ledger seven_ne ledger-IsConsistent
      (tt, (((λ e. refl), tt), tt)) (omega arith)

-- User 7 is at the cap, from session b.
abbrev full : Leaser
full =
    run parts (new config)
      ((100, Call.reserves 7 "b" "ws" 3) ∷ (101, Call.reserves 7 "b" "ws" 4) ∷ [])

-- The ledger that the budget of a Reserve from the web socket leaves.
abbrev selected : Leaser
selected = Ledger.emit (Effect.metric (Metric.select "ws")) full

reserve-evicts_nothing_example :
    let r = Reserve.reserve parts 7 "a" "ws" 9 300 full in
    (r.1 ≡ 3)
    × (r.2 ≡ none)
    × (lookup 3 r.0.leases ≡ some (lease_of 3 full))
    × (2 < per_user_of 7 r.0.per_user)
unfolding program
reserve-evicts_nothing_example =
    reserve-evicts_nothing parts 7 "a" "ws" 9 300 3 selected full (lease_of 3 full) refl refl
      (omega arith) refl refl refl refl

reserve_held-evicts_example :
    let r = Reserve.reserve parts 7 "b" "ws" 4 300 full in
    (r.1 ≡ 3)
    × (r.2 ≡ none)
    × (maybe false
          (λ l. has (Ledger.find_holder 7 "b" (lease_of 3 full).holders) l.holders)
          (lookup 3 r.0.leases)
        ≡ false)
    × (per_user_of 7 r.0.per_user ≡ per_user_of 7 full.per_user - 1)
unfolding program
reserve_held-evicts_example =
    reserve_held-evicts parts 7 "b" "ws" 4 300 3 selected full (lease_of 4 full) (lease_of 3 full)
      refl refl (omega arith) refl refl refl refl (omega arith)

-- The last holder of 3 has left while its slot is being acquired.
abbrev leaving : List (ℕ × Call)
leaving =
    (100, Call.reserves 7 "a" "ws" 3)
    ∷ (101, Call.begins_acquire 3)
    ∷ (102, Call.deselects 7 "a" 3)
    ∷ []

abbrev left : Leaser
left = run parts (new config) leaving

finish_acquire-keeps_slot_example :
    let t = Select.finish_acquire parts driver 3 none 200 left in
    (lookup 3 t.leases ≡ some (acquired 200 (lease_of 3 left)))
    × (releases_of 3 t.effects ≡ releases_of 3 left.effects)
    × (lookup 3 (Sweep.sweep_deferred parts 900 t).leases ≡ some (acquired 200 (lease_of 3 left)))
    × (lookup 3 (Sweep.sweep_idle parts 900 t).leases ≡ some (acquired 200 (lease_of 3 left)))
unfolding program
finish_acquire-keeps_slot_example =
    finish_acquire-keeps_slot parts driver 3 200 900 left (lease_of 3 left)
      (run-IsConsistent parts (new config) leaving (new-IsConsistent parts config)) refl refl refl
      refl
