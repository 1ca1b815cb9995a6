-- ===== src/Slotlease/Types.antt =====
-- The data of pkgs/bigfred/dcc-bus/slotlease (leaser.go, reason.go, errors.go): leases, the ledger
-- that `Leaser` keeps, its calls to the outside, and the components it calls.
-- Times are nanoseconds since an epoch, and 0 is Go's zero `time.Time`.
use bigfred.Base.{
  ℕ, ◌≡◌, ◌↔◌, Bool, ◌&&◌, String, Option, List, Map, arith, Key, ◌==◌, nat_key, string_key,
}
use text.Mathlib.TextEquality.{eq_iff}

pub data ReleaseReason : Type 0 where
  unset session_close idle_timeout cap_evict roster_retire train_dissolved : ReleaseReason
  permission_revoked switcher_change shutdown boot_reconcile release_pending_retry : ReleaseReason
  grace_evict reconcile admin_manual external : ReleaseReason

pub data LeaseError : Type 0 where
  no_free_slot slot_in_use budget_exceeded vehicle_cap_exceeded not_allowed other : LeaseError

pub data SpeedError : Type 0 where
  speed_superseded write_failed : SpeedError

pub data LeaseKind : Type 0 where
  lease_single lease_train : LeaseKind

-- One driver session on a lease.
pub record HolderKey : Type 0 where
  pub user_id : ℕ
  pub session : String
  pub source : String

abbrev pub holder_beq : HolderKey → HolderKey → Bool
holder_beq a b = a.user_id == b.user_id && (a.session == b.session && a.source == b.source)

pub holder_beq_iff : (a b : HolderKey) → (holder_beq a b ≡ Bool.true) ↔ (a ≡ b)
holder_beq_iff a b = ground (arith, eq_iff a.session b.session, eq_iff a.source b.source)

instance abbrev pub holder_key : Key HolderKey
holder_key = record { same = holder_beq; same_iff = holder_beq_iff }

pub record Lease : Type 0 where
  pub addr : ℕ
  pub kind : LeaseKind
  pub train_id : String
  pub holders : Map HolderKey (Unit {0})
  pub holder_order : List HolderKey
  pub last_drive_at : Map HolderKey ℕ
  pub acquired_at : ℕ
  pub acquiring : Bool
  pub release_after : Bool
  pub pending_release_reason : ReleaseReason
  pub release_at : ℕ

pub record TrainLease : Type 0 where
  pub train_id : String
  pub addrs : List ℕ

pub record ReleaseJob : Type 0 where
  pub addr : ℕ
  pub reason : ReleaseReason

-- The metrics recorder's calls.
pub data Metric : Type 0 where
  select deselect leased : String → Metric
  released : ReleaseReason → Metric
  not_allowed no_free_slot budget_exceeded cap_evict release_estop release_pending : Metric

-- What the leaser does to the outside, in order.
pub data Effect : Type 0 where
  acquire_slot : ℕ → Effect
  release_slot : ℕ → Effect
  -- the address, the speed, the direction, and whether it is an emergency
  set_speed : ℕ → ℕ → Bool → Bool → Effect
  -- the address, the speed and the direction
  store_and_broadcast : ℕ → ℕ → Bool → Effect
  metric : Metric → Effect
  notify_diag : Effect
  stop_grace : Effect
  retry_gap : Effect

-- The command station: its answer to a call may depend on all calls before it. `none` is Go's nil.
pub record SlotStation : Type 0 where
  pub acquire_slot : List Effect → ℕ → Option LeaseError
  pub release_slot : List Effect → ℕ → Option LeaseError

-- The components handed to `New`. `none` and `false` stand for a nil argument.
pub record Components : Type 0 where
  pub station : Option SlotStation
  pub writer : Option (List Effect → ℕ → ℕ → Bool → Bool → Option SpeedError)
  pub store : Option (List Effect → ℕ → Bool)
  pub hub : Bool
  pub gate : Option (ℕ → ℕ → Bool)

-- The ledger under `mu`, the release queue, and the effects so far, the latest first.
pub record Leaser : Type 0 where
  pub leases : Map ℕ Lease
  pub trains : Map String TrainLease
  pub per_user : Map ℕ ℕ
  pub user_addr_order : Map ℕ (List ℕ)
  pub release_pending : Map ℕ (Unit {0})
  pub releasing : Map ℕ (Unit {0})
  pub max_per_user : ℕ
  pub max_slots : ℕ
  pub idle_timeout : ℕ
  pub release_grace : ℕ
  pub switcher_grace : ℕ
  pub release_ch : List ReleaseJob
  pub suppress_external : Bool
  pub effects : List Effect
