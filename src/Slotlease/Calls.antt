-- ===== src/Slotlease/Calls.antt =====
-- The leaser from `New` on: every public operation as a call, and histories of calls. The two halves
-- of `Select` are calls of their own, so that a history may put any other call between them.
use bigfred.Base.{
  ℕ, ℤ, positive_or, nonnegative_or, Bool, false, String, Option, List, [], ◌∷◌, if◌then◌else◌, ◌*◌,
}
use bigfred.Slotlease.Types.{HolderKey, Leaser, LeaseError, Components}
use bigfred.Slotlease.Release.{run_release_worker_step}
use bigfred.Slotlease.Reserve.{deselect, deselect_deferred, reserve}
use bigfred.Slotlease.Select.{begin_acquire, finish_acquire, select, select_train, touch}
use bigfred.Slotlease.Sweep.{
  SlotStatus, on_slot_in_use, on_slot_released, reconcile_slots, release_session, sweep_idle,
  sweep_deferred, force_release,
}

pub record Config : Type 0 where
  pub max_per_user : ℤ
  pub max_slots : ℤ
  pub idle_timeout : ℤ
  pub idle_timeout_disabled : Bool
  pub release_grace : ℤ
  pub switcher_grace : ℤ

abbrev pub second : ℕ
second = 1_000_000_000

abbrev pub default_max_per_user : ℕ
default_max_per_user = 8

abbrev pub default_max_slots : ℕ
default_max_slots = 80

abbrev pub default_idle_timeout : ℕ
default_idle_timeout = 60 * second

abbrev pub default_switcher_grace : ℕ
default_switcher_grace = 60 * second

abbrev pub slot_release_stop_grace : ℕ
slot_release_stop_grace = 500_000_000

-- `New`
unfoldable pub new : Config → Leaser
new cfg = record {
  leases = [];
  trains = [];
  per_user = [];
  user_addr_order = [];
  release_pending = [];
  releasing = [];
  max_per_user = positive_or default_max_per_user cfg.max_per_user;
  max_slots = nonnegative_or default_max_slots cfg.max_slots;
  idle_timeout =
      if cfg.idle_timeout_disabled then 0 else positive_or default_idle_timeout cfg.idle_timeout;
  release_grace = positive_or slot_release_stop_grace cfg.release_grace;
  switcher_grace = positive_or default_switcher_grace cfg.switcher_grace;
  release_ch = [];
  suppress_external = false;
  effects = [];
}

pub data Call : Type 0 where
  reserves selects : ℕ → String → String → ℕ → Call
  selects_train : ℕ → String → String → String → List ℕ → Call
  begins_acquire : ℕ → Call
  finishes_acquire : HolderKey → ℕ → Option LeaseError → Call
  deselects deselects_deferred touches : ℕ → String → ℕ → Call
  releases_session : String → Call
  sweeps_idle sweeps_deferred : Call
  observes_in_use observes_released : ℕ → Call
  reconciles : (ℕ → SlotStatus) → Call
  forces_release : ℕ → Call
  suppresses_external : Bool → Call
  works : Call

module _ (c : Components) where
  -- One call at a time `now`.
  unfoldable pub step : Leaser → ℕ × Call → Leaser
  step s (now, Call.reserves u session source a) = (reserve c u session source a now s).0
  step s (now, Call.selects u session source a) = (select c u session source a now s).0
  step s (now, Call.selects_train u session source train addrs) =
      (select_train c u session source train addrs now s).0
  step s (now, Call.begins_acquire a) = (begin_acquire a s).0
  step s (now, Call.finishes_acquire key a answer) = finish_acquire c key a answer now s
  step s (now, Call.deselects u session a) = deselect c u session a now s
  step s (now, Call.deselects_deferred u session a) = deselect_deferred c u session a now s
  step s (now, Call.touches u session a) = touch u session a now s
  step s (now, Call.releases_session session) = release_session c session s
  step s (now, Call.sweeps_idle) = sweep_idle c now s
  step s (now, Call.sweeps_deferred) = sweep_deferred c now s
  step s (now, Call.observes_in_use a) = on_slot_in_use a now s
  step s (now, Call.observes_released a) = on_slot_released a s
  step s (now, Call.reconciles probe) = reconcile_slots probe s
  step s (now, Call.forces_release a) = (force_release c a s).0
  step s (now, Call.suppresses_external on) = record s { suppress_external = on }
  step s (now, Call.works) = run_release_worker_step c s

  unfoldable pub run : Leaser → List (ℕ × Call) → Leaser
  run s [] = s
  run s (x ∷ rest) = run (step s x) rest
