-- ===== src/Slotlease/Consistency/Histories.antt =====
-- The ledger is consistent after any history of calls.
use bigfred.Base.{ℕ, ◌≡◌, ◌≢◌, refl, List, [], ◌∷◌, total, lookup, inl, inr, List-cases}
use bigfred.Slotlease.Types.{Leaser, ReleaseReason, Components}
use bigfred.Slotlease.Counts.{per_user_of, held}
use bigfred.Slotlease.Release.{run_release_worker_step}
use bigfred.Slotlease.Reserve.{deselect, deselect_deferred}
use bigfred.Slotlease.Untouched.{core, core-release_scheduled}
use bigfred.Slotlease.Calls.{Config, new, Call, step, run}
use bigfred.Slotlease.Consistency.{IsConsistent, core-IsConsistent}
use bigfred.Slotlease.Consistency.Deselect.{deselect_with-IsConsistent}
use bigfred.Slotlease.Consistency.Reserve.{reserve-IsConsistent}
use bigfred.Slotlease.Consistency.Select.{
  begin_acquire-IsConsistent, finish_acquire-IsConsistent, select-IsConsistent,
  select_train-IsConsistent, touch-IsConsistent,
}
use bigfred.Slotlease.Consistency.Sweep.{
  on_slot_in_use-IsConsistent, on_slot_released-IsConsistent, reconcile_slots-IsConsistent,
  release_session-IsConsistent, sweep_idle-IsConsistent, sweep_deferred-IsConsistent,
  force_release-IsConsistent,
}

module _ (c : Components) where
  core-run_release_worker_step : (s : Leaser) → core (run_release_worker_step c s) ≡ core s
  unfolding run_release_worker_step
  core-run_release_worker_step s = elim (List-cases s.release_ch) [
    | inl e ↦ rw (e, run_release_worker_step) refl
    | inr (job, rest, e) ↦
        rw (e, run_release_worker_step)
          (core-release_scheduled c job.addr job.reason (record s { release_ch = rest }))
  ]

  -- Every call, at every time, keeps the ledger consistent: the halves of a selection too, and the
  -- calls that fail.
  pub step-IsConsistent : (s : Leaser) (x : ℕ × Call) → IsConsistent s → IsConsistent (step c s x)
  unfolding step deselect deselect_deferred
  step-IsConsistent s (now, Call.reserves u session source a) v =
      reserve-IsConsistent c u session source a now s v
  step-IsConsistent s (now, Call.selects u session source a) v =
      select-IsConsistent c u session source a now s v
  step-IsConsistent s (now, Call.selects_train u session source train addrs) v =
      select_train-IsConsistent c u session source train addrs now s v
  step-IsConsistent s (now, Call.begins_acquire a) v = begin_acquire-IsConsistent a s v
  step-IsConsistent s (now, Call.finishes_acquire key a answer) v =
      finish_acquire-IsConsistent c key a answer now s v
  step-IsConsistent s (now, Call.deselects u session a) v =
      deselect_with-IsConsistent c u session a ReleaseReason.switcher_change _ _ now s v
  step-IsConsistent s (now, Call.deselects_deferred u session a) v =
      deselect_with-IsConsistent c u session a ReleaseReason.switcher_change _ _ now s v
  step-IsConsistent s (now, Call.touches u session a) v = touch-IsConsistent u session a now s v
  step-IsConsistent s (now, Call.releases_session session) v =
      release_session-IsConsistent c session s v
  step-IsConsistent s (now, Call.sweeps_idle) v = sweep_idle-IsConsistent c now s v
  step-IsConsistent s (now, Call.sweeps_deferred) v = sweep_deferred-IsConsistent c now s v
  step-IsConsistent s (now, Call.observes_in_use a) v = on_slot_in_use-IsConsistent a now s v
  step-IsConsistent s (now, Call.observes_released a) v = on_slot_released-IsConsistent a s v
  step-IsConsistent s (now, Call.reconciles probe) v = reconcile_slots-IsConsistent probe s v
  step-IsConsistent s (now, Call.forces_release a) v = force_release-IsConsistent c a s v
  step-IsConsistent s (now, Call.suppresses_external on) v = v
  step-IsConsistent s (now, Call.works) v =
      core-IsConsistent s (run_release_worker_step c s) (core-run_release_worker_step s) v

  pub run-IsConsistent :
      (s : Leaser) (calls : List (ℕ × Call)) → IsConsistent s → IsConsistent (run c s calls)
  unfolding run
  run-IsConsistent s [] v = v
  run-IsConsistent s (x ∷ rest) v = run-IsConsistent (step c s x) rest (step-IsConsistent s x v)

  pub new-IsConsistent : (cfg : Config) → IsConsistent (new cfg)
  unfolding new lookup total
  new-IsConsistent cfg = record { distinct = tt; sound = tt; counted = λ u n. refl }

  -- After any history of calls from `New` on, the count of a user other than 0 that the cap is
  -- checked against is the number of holders that the user has over all leases.
  pub run-per_user :
      (cfg : Config) (calls : List (ℕ × Call)) (u : ℕ)
      → u ≢ 0
      → per_user_of u (run c (new cfg) calls).per_user ≡ held u (run c (new cfg) calls).leases
  run-per_user cfg calls u n = (run-IsConsistent (new cfg) calls (new-IsConsistent cfg)).counted u n
