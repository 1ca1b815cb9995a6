-- ===== src/Slotlease/Release.antt =====
-- leaser.go: the e-stop and release of a physical slot, its retries, and the background worker.
use bigfred.Base.{
  ℕ, suc, zero, Bool, true, false, ◌||◌, not, Option, none, some, List, [], ◌∷◌, ◌++◌, Map, insert,
  erase, has, length, ltb, nat_key, if◌then◌else◌,
}
use bigfred.Slotlease.Types.{
  Leaser, Effect, Metric, ReleaseReason, LeaseError, SpeedError, speed_superseded, write_failed,
  SlotStation, Components, release_pending_retry,
}
use bigfred.Slotlease.Ledger.{emit, release_queue_size}

-- releaseAbortedByReuse: whether the address has a lease again, which clears a stale mark.
unfoldable pub release_aborted_by_reuse : ℕ → Leaser → Leaser × Bool
release_aborted_by_reuse a s =
    if has a s.leases then (record s { releasing = erase a s.releasing }, true) else (s, false)

abbrev pub is_failure : Option SpeedError → Bool
is_failure none = false
is_failure (some speed_superseded) = false
is_failure (some write_failed) = true

-- slotReleaseRetryCount
abbrev pub slot_release_retry_count : ℕ
slot_release_retry_count = 3

-- The retry loop of releaseSlotWithRetry, over the tries left; there is a pause before each retry.
unfoldable pub retry_release :
    SlotStation → ℕ → ℕ → Option LeaseError → Leaser → Leaser × Option LeaseError
retry_release st a zero last s = (s, last)
retry_release st a (suc n) last s =
    let answer = st.release_slot s.effects a in
    let s1 = emit (Effect.release_slot a) s in
    elim answer [
      | none ↦ (s1, none)
      | some err ↦
          retry_release st a n (some err) (if ltb 0 n then emit Effect.retry_gap s1 else s1)
    ]

-- What follows the physical release, by its result.
unfoldable pub settle_release : ℕ → ReleaseReason → Leaser × Option LeaseError → Leaser
settle_release a reason (s, none) =
    emit Effect.notify_diag (emit (Effect.metric (Metric.released reason)) s)
settle_release a reason (s, some err) = emit Effect.notify_diag (
    emit (Effect.metric Metric.release_pending)
      (emit Effect.notify_diag (record s { release_pending = insert a tt s.release_pending })))

unfoldable pub settle_pending : ℕ → Leaser × Option LeaseError → Leaser
settle_pending a (s, none) = emit Effect.notify_diag (
    emit (Effect.metric (Metric.released release_pending_retry))
      (record s { release_pending = erase a s.release_pending }))
settle_pending a (s, some err) = s

module _ (c : Components) where
  unfoldable pub release_slot_with_retry : ℕ → Leaser → Leaser × Option LeaseError
  release_slot_with_retry a s =
      let (s1, aborted) = release_aborted_by_reuse a s in
      if aborted then (s1, none) else elim c.station [
        | none ↦ (s1, none)
        | some st ↦ retry_release st a slot_release_retry_count none s1
      ]

  -- `forward` of the stored snapshot; forward with no store.
  unfoldable pub stored_forward : ℕ → Leaser → Bool
  stored_forward a s = elim c.store [ none ↦ true | some snapshot ↦ snapshot s.effects a ]

  -- The e-stop before the release, with the pause after a write that failed.
  unfoldable pub write_stop : ℕ → Bool → Leaser → Leaser
  write_stop a forward s = elim c.writer [
    | none ↦ s
    | some set_speed ↦
        let s1 = emit (Effect.set_speed a 0 forward true) s in
        if is_failure (set_speed s.effects a 0 forward true) then emit Effect.stop_grace s1 else s1
  ]

  unfoldable pub broadcast_stop : ℕ → Bool → Leaser → Leaser
  broadcast_stop a forward s = elim c.store [
    | none ↦ s
    | some _ ↦ if c.hub then emit (Effect.store_and_broadcast a 0 forward) s else s
  ]

  unfoldable pub estop_before_release : ℕ → Leaser → Leaser
  estop_before_release a s =
      let s1 = emit (Effect.metric Metric.release_estop) s in
      let forward = stored_forward a s1 in broadcast_stop a forward (write_stop a forward s1)

  unfoldable pub stop_and_release : ℕ → ReleaseReason → Leaser → Leaser
  stop_and_release a reason s =
      let (s1, aborted) = release_aborted_by_reuse a s in
      if aborted
      then s1
      else (let (s2, reused) = release_aborted_by_reuse a (estop_before_release a s1) in
          if reused then s2 else settle_release a reason (release_slot_with_retry a s2))

  -- The loop over the addresses that an operation has collected.
  unfoldable pub stop_and_release_all : List ℕ → ReleaseReason → Leaser → Leaser
  stop_and_release_all [] reason s = s
  stop_and_release_all (a ∷ rest) reason s =
      stop_and_release_all rest reason (stop_and_release a reason s)

  -- releaseScheduled: a job of the worker.
  unfoldable pub release_scheduled : ℕ → ReleaseReason → Leaser → Leaser
  release_scheduled a reason s =
      let scheduled = has a s.releasing in
      let reused = has a s.leases in
      let s1 = record s { releasing = erase a s.releasing } in
      if not scheduled || reused then s1 else stop_and_release a reason s1

  -- A send on `releaseCh`; a full queue releases in line.
  unfoldable pub enqueue_release : ℕ → ReleaseReason → Leaser → Leaser
  enqueue_release a reason s =
      if ltb (length s.release_ch) release_queue_size
      then record s { release_ch = s.release_ch ++ record { addr = a; reason = reason } ∷ [] }
      else release_scheduled a reason s

  -- One round of RunReleaseWorker; with an empty queue it waits.
  unfoldable pub run_release_worker_step : Leaser → Leaser
  run_release_worker_step s = elim s.release_ch [
    | [] ↦ s
    | job ∷ rest ↦ release_scheduled job.addr job.reason (record s { release_ch = rest })
  ]

  -- The loop of drainReleasePending, over the addresses that were pending when it began.
  unfoldable pub drain_pending : Map ℕ (Unit {0}) → Leaser → Leaser
  drain_pending [] s = s
  drain_pending ((a, _) ∷ rest) s =
      drain_pending rest (settle_pending a (release_slot_with_retry a s))

  unfoldable pub drain_release_pending : Leaser → Leaser
  drain_release_pending s = drain_pending s.release_pending s
