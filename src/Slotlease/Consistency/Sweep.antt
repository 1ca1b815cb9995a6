-- ===== src/Slotlease/Consistency/Sweep.antt =====
-- The sweeps, the observer and the admin release keep the ledger consistent.
use bigfred.Base.{
  ℕ, zero, suc, ◌≡◌, ◌≢◌, refl, Bool, true, false, not, ◌||◌, String, some, List, [], ◌∷◌, Map,
  arith, Bool-cases, Option-cases, inl, inr, has, lookup, Entries, ◌==◌, nat_key, string_key,
  Entries-map, Entries-of_lookup,
}
use bigfred.Slotlease.Types.{
  Lease, Leaser, HolderKey, ReleaseReason, Components, holder_key, admin_manual, session_close,
  idle_timeout, switcher_change,
}
use bigfred.Slotlease.Ledger.{remove_holder, drop_lease, holder_count_for_user}
use bigfred.Slotlease.Release.{stop_and_release_all, drain_release_pending}
use bigfred.Slotlease.Sweep.{
  session_keys, leave_session, leave_keys, leave_leases, is_idle, sweep_idle_leases, is_overdue,
  sweep_deferred_leases, external_lease, on_slot_in_use, on_slot_released, SlotStatus,
  reconcile_candidates, reconcile_slot, reconcile_loop, record_reconciled, reconcile_slots,
  slot_reconcile_max_per_cycle, release_session, sweep_idle, sweep_deferred, force_release,
}
use bigfred.Slotlease.Untouched.{core, core-stop_and_release_all, core-drain_release_pending}
use bigfred.Slotlease.Grace.{drop_lease-IsConsistent, IsDroppable, erase-IsDroppable}
use bigfred.Slotlease.Consistency.{
  IsSound, IsConsistent, lookup-IsSound, insert-Consistent, rewrite-Consistent, core-IsConsistent,
  stop_and_release-IsConsistent,
}
use bigfred.Slotlease.Consistency.Holders.{
  Removed, remove_holder-Removed, drop_lease_bookkeeping-IsConsistent,
}
use bigfred.Slotlease.Consistency.Deselect.{put-IsConsistent, drop-IsConsistent}

leave_session-IsConsistent :
    (a : ℕ) (key : HolderKey) (s : Leaser) → IsConsistent s → IsConsistent (leave_session a key s).0
unfolding leave_session
leave_session-IsConsistent a key s v = elim (Option-cases (lookup a s.leases)) [
  | inl e ↦ rw (e, leave_session) v
  | inr (le, e) ↦ go le e (remove_holder le key s) (remove_holder-Removed a le key s v e) refl
]
  where
    go :
        (le : Lease) (e : lookup a s.leases ≡ some le) (r : Lease × Leaser × Bool)
        → Removed a le s r
        → remove_holder le key s ≡ r
        → IsConsistent (leave_session a key s).0
    go le e (le1, s1, true) d q = elim (Bool-cases le1.acquiring) [
      | inl p ↦
          rw (e, leave_session)
            (rw q (
              rw p (
                put-IsConsistent v e (le1, s1, true) d _
                  (record {
                    addr_eq = d.is_sound.addr_eq;
                    holders_distinct = d.is_sound.holders_distinct;
                    grace_empty = d.is_sound.grace_empty;
                  })
                  refl)))
      | inr p ↦
          rw (e, leave_session)
            (rw q (rw p (drop-IsConsistent v e (le1, s1, true) d (d.last_empty refl))))
    ]
    go le e (le1, s1, false) d q =
        rw (e, leave_session) (rw q (put-IsConsistent v e (le1, s1, false) d le1 d.is_sound refl))

leave_keys-IsConsistent :
    (a : ℕ) (ks : List HolderKey) (s : Leaser) → IsConsistent s → IsConsistent (leave_keys a ks s).0
unfolding leave_keys
leave_keys-IsConsistent a [] s v = v
leave_keys-IsConsistent a (k ∷ ks) s v =
    leave_keys-IsConsistent a ks _ (leave_session-IsConsistent a k s v)

leave_leases-IsConsistent :
    (session : String) (m : Map ℕ Lease) (s : Leaser)
    → IsConsistent s
    → IsConsistent (leave_leases session m s).0
unfolding leave_leases
leave_leases-IsConsistent session [] s v = v
leave_leases-IsConsistent session ((a, le) ∷ m) s v =
    leave_leases-IsConsistent session m _
      (leave_keys-IsConsistent a (session_keys session le.holders) s v)

sweep_idle_leases-IsConsistent :
    (now : ℕ) (m : Map ℕ Lease) (s : Leaser)
    → IsConsistent s
    → IsConsistent (sweep_idle_leases now m s).0
unfolding sweep_idle_leases
sweep_idle_leases-IsConsistent now [] s v = v
sweep_idle_leases-IsConsistent now ((a, le) ∷ m) s v =
    elim (Bool-cases (is_idle s.idle_timeout now le)) [
      | inl e ↦
          rw e (sweep_idle_leases-IsConsistent now m _ (drop_lease_bookkeeping-IsConsistent a s v))
      | inr e ↦ rw e (sweep_idle_leases-IsConsistent now m s v)
    ]

-- A lease whose grace window is over has no holder, wherever the sweep has got to.
abbrev OverdueDroppable : ℕ → Map ℕ Lease → ℕ → Lease → Type 0
OverdueDroppable now m a le = is_overdue now le ≡ true → IsDroppable m (a, 0)

sweep_deferred_leases-IsConsistent :
    (now : ℕ) (m : Map ℕ Lease) (s : Leaser)
    → IsConsistent s
    → Entries (OverdueDroppable now s.leases) m
    → IsConsistent (sweep_deferred_leases now m s).0
unfolding sweep_deferred_leases
sweep_deferred_leases-IsConsistent now [] s v h = v
sweep_deferred_leases-IsConsistent now ((a, le) ∷ m) s v h = elim (Bool-cases (is_overdue now le)) [
  | inl e ↦ rw e (
      sweep_deferred_leases-IsConsistent now m (drop_lease a s)
        (drop_lease-IsConsistent a 0 s v (h.0 e))
        (Entries-map (λ k l p q. erase-IsDroppable a s.leases (k, 0) (p q)) m h.1))
  | inr e ↦ rw e (sweep_deferred_leases-IsConsistent now m s v h.1)
]

all_overdue-droppable :
    (now : ℕ) (s : Leaser) → IsConsistent s → Entries (OverdueDroppable now s.leases) s.leases
unfolding is_overdue
all_overdue-droppable now s v =
    Entries-of_lookup (OverdueDroppable now s.leases) s.leases v.distinct
      (λ a le e o le' e'. ground (arith, lookup-IsSound v a le e))

external_lease-IsSound : (a now : ℕ) → IsSound a (external_lease a now)
unfolding lookup
external_lease-IsSound a now = record {
  addr_eq = refl;
  holders_distinct = (refl, tt);
  grace_empty = inl refl;
}

-- The holder of an external lease is not counted.
external_lease-count :
    (a now u : ℕ) → u ≢ 0 → holder_count_for_user u (external_lease a now).holders ≡ 0
unfolding holder_count_for_user
external_lease-count a now u n = ground arith

pub on_slot_in_use-IsConsistent :
    (a now : ℕ) (s : Leaser) → IsConsistent s → IsConsistent (on_slot_in_use a now s)
unfolding on_slot_in_use
on_slot_in_use-IsConsistent a now s v = elim (Bool-cases (a == 0)) [
  | inl z ↦ rw z v
  | inr z ↦ elim (Option-cases (lookup a s.leases)) [
    | inl e ↦ elim (Bool-cases s.suppress_external) [
      | inl p ↦ rw z (rw (e, on_slot_in_use) (rw p v))
      | inr p ↦ rw z (
          rw (e, on_slot_in_use)
            (rw p (
              insert-Consistent v a (external_lease a now) s.per_user (external_lease-IsSound a now)
                (λ u n. ground (arith, e, external_lease-count a now u n)))))
    ]
    | inr (le, e) ↦ elim (Bool-cases (le.acquired_at == 0)) [
      | inl p ↦ rw z (
          rw (e, on_slot_in_use)
            (rw p (
              rewrite-Consistent v a le _ e
                (record {
                  addr_eq = (lookup-IsSound v a le e).addr_eq;
                  holders_distinct = (lookup-IsSound v a le e).holders_distinct;
                  grace_empty = (lookup-IsSound v a le e).grace_empty;
                })
                refl)))
      | inr p ↦ rw z (rw (e, on_slot_in_use) (rw p v))
    ]
  ]
]

pub on_slot_released-IsConsistent :
    (a : ℕ) (s : Leaser) → IsConsistent s → IsConsistent (on_slot_released a s)
unfolding on_slot_released
on_slot_released-IsConsistent a s v = elim (Bool-cases (a == 0)) [
  | inl z ↦ rw z v
  | inr z ↦ elim (Option-cases (lookup a s.leases)) [
    | inl e ↦ rw z (rw (e, on_slot_released) v)
    | inr (le, e) ↦ rw z (rw (e, on_slot_released) (drop_lease_bookkeeping-IsConsistent a s v))
  ]
]

reconcile_slot-IsConsistent :
    (a acquired_at : ℕ) (status : SlotStatus) (s : Leaser)
    → IsConsistent s
    → IsConsistent (reconcile_slot a acquired_at status s).0
unfolding reconcile_slot
reconcile_slot-IsConsistent a acquired_at status s v =
    elim (Bool-cases (status.failed || (not status.known || status.in_use))) [
      | inl z ↦ rw z v
      | inr z ↦ elim (Option-cases (lookup a s.leases)) [
        | inl e ↦ rw z (rw (e, reconcile_slot) v)
        | inr (le, e) ↦ elim (Bool-cases (le.acquired_at == acquired_at)) [
          | inl p ↦ rw z (rw (e, reconcile_slot) (rw p (drop_lease_bookkeeping-IsConsistent a s v)))
          | inr p ↦ rw z (rw (e, reconcile_slot) (rw p v))
        ]
      ]
    ]

reconcile_loop-IsConsistent :
    (probe : ℕ → SlotStatus) (cands : List (ℕ × ℕ)) (s : Leaser)
    → IsConsistent s
    → IsConsistent (reconcile_loop probe cands s).0
unfolding reconcile_loop
reconcile_loop-IsConsistent probe [] s v = v
reconcile_loop-IsConsistent probe ((a, acquired_at) ∷ rest) s v =
    reconcile_loop-IsConsistent probe rest _
      (reconcile_slot-IsConsistent a acquired_at (probe a) s v)

core-record_reconciled : (n : ℕ) (s : Leaser) → core (record_reconciled n s) ≡ core s
unfolding record_reconciled
core-record_reconciled zero s = refl
core-record_reconciled (suc n) s = core-record_reconciled n _

pub reconcile_slots-IsConsistent :
    (probe : ℕ → SlotStatus) (s : Leaser) → IsConsistent s → IsConsistent (reconcile_slots probe s)
unfolding reconcile_slots
reconcile_slots-IsConsistent probe s v =
    let r = reconcile_loop probe (reconcile_candidates slot_reconcile_max_per_cycle s.leases) s in
    core-IsConsistent r.0 (record_reconciled r.1 r.0) (core-record_reconciled r.1 r.0) (
      reconcile_loop-IsConsistent probe (reconcile_candidates slot_reconcile_max_per_cycle s.leases)
        s v)

module _ (c : Components) where
  released-IsConsistent :
      (out : List ℕ) (reason : ReleaseReason) (s : Leaser)
      → IsConsistent s
      → IsConsistent (stop_and_release_all c out reason s)
  released-IsConsistent out reason s v =
      core-IsConsistent s (stop_and_release_all c out reason s)
        (core-stop_and_release_all c out reason s) v

  pub drained-IsConsistent :
      (s : Leaser) → IsConsistent s → IsConsistent (drain_release_pending c s)
  drained-IsConsistent s v =
      core-IsConsistent s (drain_release_pending c s) (core-drain_release_pending c s) v

  pub release_session-IsConsistent :
      (session : String) (s : Leaser) → IsConsistent s → IsConsistent (release_session c session s)
  unfolding release_session
  release_session-IsConsistent session s v =
      released-IsConsistent (leave_leases session s.leases s).1 session_close _
        (leave_leases-IsConsistent session s.leases s v)

  pub sweep_idle-IsConsistent :
      (now : ℕ) (s : Leaser) → IsConsistent s → IsConsistent (sweep_idle c now s)
  unfolding sweep_idle
  sweep_idle-IsConsistent now s v = elim (Bool-cases (s.idle_timeout == 0)) [
    | inl e ↦ rw e v
    | inr e ↦ rw e (
        drained-IsConsistent _ (
          released-IsConsistent (sweep_idle_leases now s.leases s).1 idle_timeout _
            (sweep_idle_leases-IsConsistent now s.leases s v)))
  ]

  pub sweep_deferred-IsConsistent :
      (now : ℕ) (s : Leaser) → IsConsistent s → IsConsistent (sweep_deferred c now s)
  unfolding sweep_deferred
  sweep_deferred-IsConsistent now s v =
      released-IsConsistent (sweep_deferred_leases now s.leases s).1 switcher_change _
        (sweep_deferred_leases-IsConsistent now s.leases s v (all_overdue-droppable now s v))

  pub force_release-IsConsistent :
      (a : ℕ) (s : Leaser) → IsConsistent s → IsConsistent (force_release c a s).0
  unfolding force_release
  force_release-IsConsistent a s v = elim (Bool-cases (a == 0 || not (has a s.leases))) [
    | inl e ↦ rw e v
    | inr e ↦ rw e (
        stop_and_release-IsConsistent c a admin_manual _
          (drop_lease_bookkeeping-IsConsistent a s v))
  ]
