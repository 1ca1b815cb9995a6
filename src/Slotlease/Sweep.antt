-- ===== src/Slotlease/Sweep.antt =====
-- leaser.go: the operations that drop leases outside a switch of locomotives: the end of a session,
-- the sweeps, the slot observer, the reconciliation with the command station and the admin release.
use bigfred.Base.{
  ℕ, zero, suc, ◌+◌, Bool, true, false, not, ◌&&◌, ◌||◌, String, none, some, List, [], ◌∷◌, ◌++◌,
  Map, lookup, has, leb, ◌==◌, nat_key, string_key, if◌then◌else◌,
}
use bigfred.Slotlease.Types.{
  HolderKey, Lease, Leaser, Effect, Metric, Components, holder_key, session_close, idle_timeout,
  switcher_change, reconcile, admin_manual, external,
}
use bigfred.Slotlease.Ledger.{
  emit, new_lease, put_lease, drop_lease, occupies_slot, has_bigfred_holder, is_remote_only,
  youngest_drive, remove_holder, drop_lease_bookkeeping,
}
use bigfred.Slotlease.Release.{stop_and_release, stop_and_release_all, drain_release_pending}

-- The holders of a session.
unfoldable pub session_keys : String → Map HolderKey (Unit {0}) → List HolderKey
session_keys session [] = []
session_keys session ((k, _) ∷ hs) =
    let rest = session_keys session hs in if k.session == session then k ∷ rest else rest

-- ReleaseSession at one holder of one lease: the ledger, and whether the lease is dropped.
unfoldable pub leave_session : ℕ → HolderKey → Leaser → Leaser × Bool
leave_session a key s = elim (lookup a s.leases) [
  | none ↦ (s, false)
  | some le ↦
      let (le1, s1, last) = remove_holder le key s in
      if last
      then if le1.acquiring
        then (
          put_lease (record le1 { release_after = true; pending_release_reason = session_close }) a
              s1,
          false,
        )
        else (drop_lease a s1, true)
      else (put_lease le1 a s1, false)
]

-- ReleaseSession's inner loop.
unfoldable pub leave_keys : ℕ → List HolderKey → Leaser → Leaser × List ℕ
leave_keys a [] s = (s, [])
leave_keys a (k ∷ ks) s =
    let (s1, dropped) = leave_session a k s in
    let (s2, out) = leave_keys a ks s1 in (s2, if dropped then a ∷ out else out)

-- ReleaseSession's loop over the leases.
unfoldable pub leave_leases : String → Map ℕ Lease → Leaser → Leaser × List ℕ
leave_leases session [] s = (s, [])
leave_leases session ((a, le) ∷ m) s =
    let (s1, out) = leave_keys a (session_keys session le.holders) s in
    let (s2, rest) = leave_leases session m s1 in (s2, out ++ rest)

-- Whether SweepIdle drops the lease.
unfoldable pub is_idle : ℕ → ℕ → Lease → Bool
is_idle timeout now le =
    not le.acquiring
    && (has_bigfred_holder le.holders
        && (is_remote_only le && leb (youngest_drive le.holders le.last_drive_at 0 + timeout) now))

-- SweepIdle's loop.
unfoldable pub sweep_idle_leases : ℕ → Map ℕ Lease → Leaser → Leaser × List ℕ
sweep_idle_leases now [] s = (s, [])
sweep_idle_leases now ((a, le) ∷ m) s =
    let idle = is_idle s.idle_timeout now le in
    let (s1, out) = sweep_idle_leases now m (if idle then drop_lease_bookkeeping a s else s) in
    (s1, if idle then a ∷ out else out)

-- Whether SweepDeferred drops the lease: its grace window is over.
unfoldable pub is_overdue : ℕ → Lease → Bool
is_overdue now le = not (le.release_at == 0) && leb le.release_at now

-- SweepDeferred's loop.
unfoldable pub sweep_deferred_leases : ℕ → Map ℕ Lease → Leaser → Leaser × List ℕ
sweep_deferred_leases now [] s = (s, [])
sweep_deferred_leases now ((a, le) ∷ m) s =
    let over = is_overdue now le in
    let (s1, out) = sweep_deferred_leases now m (if over then drop_lease a s else s) in
    (s1, if over then a ∷ out else out)

-- The holder of a slot that a physical throttle has taken.
abbrev pub external_key : HolderKey
external_key = record { user_id = 0; session = ""; source = "external" }

abbrev pub external_lease : ℕ → ℕ → Lease
external_lease a now = record (new_lease a) {
  holders = (external_key, tt) ∷ [];
  holder_order = external_key ∷ [];
  acquired_at = now;
}

-- OnSlotInUse; with address 0 nothing is done.
unfoldable pub on_slot_in_use : ℕ → ℕ → Leaser → Leaser
on_slot_in_use a now s = if a == 0 then s else elim (lookup a s.leases) [
  | some le ↦
      if le.acquired_at == 0
      then emit Effect.notify_diag (put_lease (record le { acquired_at = now }) a s)
      else s
  | none ↦
      if s.suppress_external
      then s
      else emit Effect.notify_diag
          (emit (Effect.metric (Metric.leased "external")) (put_lease (external_lease a now) a s))
]

-- OnSlotReleased
unfoldable pub on_slot_released : ℕ → Leaser → Leaser
on_slot_released a s = if a == 0 then s else elim (lookup a s.leases) [
  | none ↦ s
  | some le ↦
      emit
        (Effect.metric
          (Metric.released (if has_bigfred_holder le.holders then switcher_change else external)))
        (emit Effect.notify_diag (drop_lease_bookkeeping a s))
]

-- slotReconcileMaxPerCycle
abbrev pub slot_reconcile_max_per_cycle : ℕ
slot_reconcile_max_per_cycle = 16

-- The command station's answer to a probe: in use, known, failed.
pub record SlotStatus : Type 0 where
  pub in_use : Bool
  pub known : Bool
  pub failed : Bool

-- ReconcileSlots' choice of the leases to probe, over the places left.
unfoldable pub reconcile_candidates : ℕ → Map ℕ Lease → List (ℕ × ℕ)
reconcile_candidates zero m = []
reconcile_candidates (suc n) [] = []
reconcile_candidates (suc n) ((a, le) ∷ m) = elim (le.acquiring || not (occupies_slot le)) [
  | true ↦ reconcile_candidates (suc n) m
  | false ↦ (a, le.acquired_at) ∷ reconcile_candidates n m
]

-- ReconcileSlots at one probed lease, on the probe's answer: the ledger, and whether it is dropped.
unfoldable pub reconcile_slot : ℕ → ℕ → SlotStatus → Leaser → Leaser × Bool
reconcile_slot a acquired_at status s =
    if status.failed || (not status.known || status.in_use)
    then (s, false)
    else elim (lookup a s.leases) [
      | none ↦ (s, false)
      | some le ↦
          if le.acquired_at == acquired_at
          then (emit Effect.notify_diag (drop_lease_bookkeeping a s), true)
          else (s, false)
    ]

-- ReconcileSlots' loop over the probes.
unfoldable pub reconcile_loop : (ℕ → SlotStatus) → List (ℕ × ℕ) → Leaser → Leaser × ℕ
reconcile_loop probe [] s = (s, 0)
reconcile_loop probe ((a, acquired_at) ∷ rest) s =
    let (s1, dropped) = reconcile_slot a acquired_at (probe a) s in
    let (s2, n) = reconcile_loop probe rest s1 in (s2, if dropped then suc n else n)

unfoldable pub record_reconciled : ℕ → Leaser → Leaser
record_reconciled zero s = s
record_reconciled (suc n) s =
    record_reconciled n (emit (Effect.metric (Metric.released reconcile)) s)

unfoldable pub reconcile_slots : (ℕ → SlotStatus) → Leaser → Leaser
reconcile_slots probe s =
    let (s1, n) =
      reconcile_loop probe (reconcile_candidates slot_reconcile_max_per_cycle s.leases) s in
    record_reconciled n s1

module _ (c : Components) where
  unfoldable pub release_session : String → Leaser → Leaser
  release_session session s =
      let (s1, out) = leave_leases session s.leases s in
      stop_and_release_all c out session_close (emit Effect.notify_diag s1)

  unfoldable pub sweep_idle : ℕ → Leaser → Leaser
  sweep_idle now s =
      if s.idle_timeout == 0
      then s
      else (let (s1, out) = sweep_idle_leases now s.leases s in
          drain_release_pending c
            (stop_and_release_all c out idle_timeout (emit Effect.notify_diag s1)))

  unfoldable pub sweep_deferred : ℕ → Leaser → Leaser
  sweep_deferred now s =
      let (s1, out) = sweep_deferred_leases now s.leases s in
      stop_and_release_all c out switcher_change (emit Effect.notify_diag s1)

  -- ForceRelease: the ledger, and whether a lease existed.
  unfoldable pub force_release : ℕ → Leaser → Leaser × Bool
  force_release a s = if a == 0 || not (has a s.leases) then (s, false) else (
    stop_and_release c a admin_manual (emit Effect.notify_diag (drop_lease_bookkeeping a s)),
    true,
  )
