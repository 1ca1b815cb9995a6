-- ===== src/Slotlease/Leak.antt =====
-- The end of an acquisition whose last holder has left in the meantime.
use bigfred.Base.{
  ℕ, ◌≡◌, refl, ap, true, false, none, some, [], arith, Bool-cases, inl, inr, lookup, has,
  lookup-insert_self, erase, ◌==◌, nat_key, String,
}
use bigfred.Slotlease.Types.{Lease, Leaser, HolderKey, Components, Effect, Metric}
use bigfred.Slotlease.Ledger.{emit, put_lease, has_bigfred_holder}
use bigfred.Slotlease.Select.{acquire_done, acquire_succeeded, finish_acquire, or_switcher_change}
use bigfred.Slotlease.Sweep.{is_idle, is_overdue, sweep_idle, sweep_deferred}
use bigfred.Slotlease.Consistency.{IsConsistent}
use bigfred.Slotlease.Consistency.Select.{finish_acquire-IsConsistent}
use bigfred.Slotlease.Stops.{releases_of, stop_and_release_leased}
use bigfred.Slotlease.Expiry.{lookup-sweep_deferred, lookup-sweep_idle}

-- The lease after an acquisition.
abbrev pub acquired : ℕ → Lease → Lease
acquired now le = record (acquire_done le) { acquired_at = now }

module _ (c : Components) where
  acquire_succeeded_left :
      (le : Lease) (source : String) (a now : ℕ) (s : Leaser)
      → le.release_after ≡ true
      → let s1 = put_lease (acquired now le) a s in
        let s2 = emit Effect.notify_diag (emit (Effect.metric (Metric.leased source)) s1) in
        acquire_succeeded c le source a now s ≡ record s2 { releasing = erase a s2.releasing }
  unfolding acquire_succeeded
  acquire_succeeded_left le source a now s h =
      let s1 = put_lease (acquired now le) a s in
      let s2 = emit Effect.notify_diag (emit (Effect.metric (Metric.leased source)) s1) in
      let here : has a s2.leases ≡ true =
        rw (lookup-insert_self a (acquired now le) s.leases) refl in
      rw h (stop_and_release_leased c a (or_switcher_change le.pending_release_reason) s2 here)

  finished :
      (key : HolderKey) (a now : ℕ) (s : Leaser) (le : Lease)
      → lookup a s.leases ≡ some le
      → finish_acquire c key a none now s ≡ acquire_succeeded c le key.source a now s
  unfolding finish_acquire
  finished key a now s le e = rw (e, finish_acquire) refl

  empty-not_idle : (timeout now : ℕ) (le : Lease) → le.holders ≡ [] → is_idle timeout now le ≡ false
  unfolding is_idle has_bigfred_holder
  empty-not_idle timeout now le h = ground (arith, ap has_bigfred_holder h)

  unscheduled-not_overdue : (now : ℕ) (le : Lease) → le.release_at ≡ 0 → is_overdue now le ≡ false
  unfolding is_overdue
  unscheduled-not_overdue now le h = ground arith

  -- In a consistent ledger, a lease in no grace window whose last holder left while its slot was
  -- being acquired, so that it is marked to be released afterwards, is not released when the
  -- acquisition succeeds: it stays in the ledger as acquired with no holder, its slot is not
  -- released on the command station, and the sweeps, of idle leases and of those past their grace
  -- window, leave it as it is at any time.
  pub finish_acquire-keeps_slot :
      (key : HolderKey) (a now later : ℕ) (s : Leaser) (le : Lease)
      → IsConsistent s
      → lookup a s.leases ≡ some le
      → le.release_after ≡ true
      → le.holders ≡ []
      → le.release_at ≡ 0
      → let t = finish_acquire c key a none now s in
        (lookup a t.leases ≡ some (acquired now le))
        × (releases_of a t.effects ≡ releases_of a s.effects)
        × (lookup a (sweep_deferred c later t).leases ≡ some (acquired now le))
        × (lookup a (sweep_idle c later t).leases ≡ some (acquired now le))
  finish_acquire-keeps_slot key a now later s le v e h empty z = (there, released, deferred, idle)
    where
      t : Leaser
      t = finish_acquire c key a none now s

      shape : t ≡ acquire_succeeded c le key.source a now s
      shape = finished key a now s le e

      there : lookup a t.leases ≡ some (acquired now le)
      there =
          rw (shape, acquire_succeeded_left le key.source a now s h)
            (lookup-insert_self a (acquired now le) s.leases)

      released : releases_of a t.effects ≡ releases_of a s.effects
      released = rw (shape, acquire_succeeded_left le key.source a now s h) refl

      consistent : IsConsistent t
      consistent = finish_acquire-IsConsistent c key a none now s v

      deferred : lookup a (sweep_deferred c later t).leases ≡ some (acquired now le)
      deferred =
          rw (lookup-sweep_deferred c later a t consistent.distinct)
            (rw there (rw (unscheduled-not_overdue later (acquired now le) z) refl))

      idle : lookup a (sweep_idle c later t).leases ≡ some (acquired now le)
      idle = elim (Bool-cases (t.idle_timeout == 0)) [
        | inl p ↦ unfold sweep_idle in rw p there
        | inr p ↦
            rw (lookup-sweep_idle c later a t consistent.distinct (ground (arith, p)))
              (rw there (rw (empty-not_idle t.idle_timeout later (acquired now le) empty) refl))
      ]
