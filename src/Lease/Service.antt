-- ===== src/Lease/Service.antt =====
-- server/cmd/lease.go: the state of the service `Lease` with its expiry timers, the reads it makes of
-- the repositories, and the events it publishes. A call reads the clock once here.
use bigfred.Base.{
  ℕ, Bool, true, false, ◌||◌, String, Option, none, some, List, [], ◌∷◌, ◌++◌, Map, lookup, insert,
  erase, leb, maybe, ◌==◌, nat_key, string_key, if◌then◌else◌,
}
use bigfred.Lease.Redis.{LeaseKey, Redis, Json, lease_key_key}
use bigfred.Lease.Store.{LeaseRow, Answer, is_active, get_lease}

pub record LeaseEntry : Type 0 where
  pub key : LeaseKey
  pub target_name : String
  pub from_user_id : ℕ
  pub from_login : String
  pub to_user_id : ℕ
  pub to_login : String
  pub expires_at : ℕ
  pub speed_limit : ℕ

pub record User : Type 0 where
  pub id : ℕ
  pub login : String
  pub active : Bool

-- A vehicle or a train of the repositories; a train has no address of its own.
pub record Target : Type 0 where
  pub name : String
  pub owner_user_id : ℕ
  pub dcc_address : Option ℕ

pub record RosterEntry : Type 0 where
  pub target_id : String
  pub owner_user_id : ℕ

-- The tables that a call reads: `none` is a read that fails.
pub record Repositories : Type 0 where
  pub has_stores : Bool
  pub find_vehicle : String → Option Target
  pub find_train : String → Option Target
  pub find_user : ℕ → Option User
  pub list_vehicles : ℕ → Option (List RosterEntry)
  pub list_trains : ℕ → Option (List RosterEntry)
  pub layout_ids : LeaseKey → List ℕ

pub data ServiceError : Type 0 where
  lease_not_found lease_conflict not_owner not_party lease_self target_not_on_layout : ServiceError
  invalid_speed_limit invalid_duration target_not_drivable store_unavailable : ServiceError
  user_not_found account_deactivated repository_error store_error : ServiceError

pub data Result {ℓ} (A : Type ℓ) : Type ℓ where
  ok : A → Result A
  err : ServiceError → Result A

infixl 5 ◌>>=◌
abbrev pub ◌>>=◌ {ℓ κ} : {A : Type ℓ} {B : Type κ} → Result A → (A → Result B) → Result B
◌>>=◌ (Result.ok a) f = f a
◌>>=◌ (Result.err e) f = Result.err e

abbrev pub or_err {ℓ} : {A : Type ℓ} → Option A → ServiceError → Result A
or_err none e = Result.err e
or_err (some a) e = Result.ok a

abbrev pub err_if : Bool → ServiceError → Result (Unit {0})
err_if c e = if c then Result.err e else Result.ok tt

pub data EventType : Type 0 where
  lease_created lease_updated lease_revoked lease_expired : EventType

-- What a call does besides the store: it brakes, sends the roster to the dcc-bus, publishes, and
-- starts the goroutine of an expiry. `stop_leased_target` is the call of brakeLeasedTarget, which does
-- nothing without a brake; `delete_lease` is Revoke's call of the store.
pub data LeaseEffect : Type 0 where
  stop_leased_target : ℕ → LeaseKey → LeaseEffect
  delete_lease : LeaseKey → LeaseEffect
  sync_layout_roster : ℕ → LeaseEffect
  broadcast_lease : ℕ → ℕ → EventType → LeaseEntry → LeaseEffect
  audit_publish : ℕ → ℕ → String → String → LeaseEntry → LeaseEffect
  go_expire_lease : LeaseKey → LeaseEntry → LeaseEffect

-- leaseTimerState: `entry` is what refreshTimerEntry sets, `captured` what the function of the
-- timer was built with.
pub record LeaseTimer : Type 0 where
  pub entry : LeaseEntry
  pub captured : LeaseEntry
  pub due : ℕ
  pub running : Bool

pub record LeaseService (D : Type 0) : Type 0 where
  pub db : D
  pub timers : Map LeaseKey LeaseTimer
  pub effects : List LeaseEffect

abbrev pub has_kind : LeaseKey → Bool
has_kind key = key.kind == "vehicle" || key.kind == "train"

unfoldable pub user_login : Repositories → ℕ → String
user_login repos user = maybe "" (λ u. u.login) (repos.find_user user)

unfoldable pub target_name : Repositories → LeaseKey → String
target_name repos key =
    maybe key.target_id (λ t. t.name)
      (if key.kind == "train"
        then repos.find_train key.target_id
        else repos.find_vehicle key.target_id)

-- buildVehicleLeaseEntry and buildTrainLeaseEntry; the login cache gives what is read without it.
unfoldable pub build_lease_entry : Repositories → LeaseRow → LeaseEntry
build_lease_entry repos row = record {
  key = row.key;
  target_name = target_name repos row.key;
  from_user_id = row.from_user_id;
  from_login = user_login repos row.from_user_id;
  to_user_id = row.to_user_id;
  to_login = user_login repos row.to_user_id;
  expires_at = row.expires_at;
  speed_limit = row.speed_limit;
}

unfoldable pub audit_message : EventType → String → String
audit_message EventType.lease_revoked kind =
    if kind == "train" then "audit_train_lease_revoked" else "audit_vehicle_lease_revoked"
audit_message EventType.lease_expired kind =
    if kind == "train" then "audit_train_lease_expired" else "audit_vehicle_lease_expired"
audit_message EventType.lease_created kind =
    if kind == "train" then "audit_train_leased" else "audit_vehicle_leased"
audit_message EventType.lease_updated kind =
    if kind == "train" then "audit_train_leased" else "audit_vehicle_leased"

unfoldable pub publish_event : ℕ → ℕ → String → EventType → LeaseEntry → List LeaseEffect
publish_event layout actor login typ entry =
    LeaseEffect.broadcast_lease layout entry.from_user_id typ entry
    ∷ LeaseEffect.broadcast_lease layout entry.to_user_id typ entry
    ∷ LeaseEffect.audit_publish layout actor login (audit_message typ entry.key.kind) entry
    ∷ []

abbrev pub stopped : LeaseTimer → LeaseTimer
stopped t = record { entry = t.entry; captured = t.captured; due = t.due; running = false }

module _ {D : Type 0} where
  abbrev pub emit_all : List LeaseEffect → LeaseService D → LeaseService D
  emit_all es s = record { db = s.db; timers = s.timers; effects = s.effects ++ es }

  abbrev pub with_db : D → LeaseService D → LeaseService D
  with_db db s = record { db = db; timers = s.timers; effects = s.effects }

  abbrev pub with_timers : Map LeaseKey LeaseTimer → LeaseService D → LeaseService D
  with_timers timers s = record { db = s.db; timers = timers; effects = s.effects }

  unfoldable pub refresh_timer_entry : LeaseKey → LeaseEntry → LeaseService D → LeaseService D
  refresh_timer_entry key entry s =
      maybe s
        (λ t.
          with_timers
            (insert key
              (record { entry = entry; captured = t.captured; due = t.due; running = t.running })
              s.timers)
            s)
        (lookup key s.timers)

  -- An expiry that is over starts expireLease at once, and the stopped timer stays in the map.
  unfoldable pub schedule_expiry : ℕ → LeaseKey → ℕ → LeaseEntry → LeaseService D → LeaseService D
  schedule_expiry now key expires entry s =
      let timers = maybe s.timers (λ t. insert key (stopped t) s.timers) (lookup key s.timers) in
      if leb expires now
      then emit_all (LeaseEffect.go_expire_lease key entry ∷ []) (with_timers timers s)
      else with_timers
          (insert key (record { entry = entry; captured = entry; due = expires; running = true })
            timers)
          s

  unfoldable pub cancel_timer : LeaseKey → LeaseService D → LeaseService D
  cancel_timer key s = with_timers (erase key s.timers) s

  -- The last part of expireLease, over the layouts of the target.
  unfoldable pub expire_on_layouts :
      List ℕ → LeaseEntry → LeaseKey → LeaseService D → LeaseService D
  expire_on_layouts [] entry key s = s
  expire_on_layouts (layout ∷ layouts) entry key s = expire_on_layouts layouts entry key (
      emit_all
        (LeaseEffect.stop_leased_target layout key
          ∷ LeaseEffect.sync_layout_roster layout
          ∷ publish_event layout entry.from_user_id entry.from_login EventType.lease_expired entry)
        s)

module _ (r : Redis) (j : Json r.Payload) (repos : Repositories) (now : ℕ) where
  unfoldable pub expire_lease : LeaseKey → LeaseEntry → LeaseService r.Db → LeaseService r.Db
  expire_lease key entry s =
      let over = expire_on_layouts (repos.layout_ids key) entry key (cancel_timer key s) in
      if has_kind key
      then elim (get_lease r j key s.db) [
        | Answer.failed e ↦ s
        | Answer.answer none ↦ over
        | Answer.answer (some row) ↦
            if is_active now row
            then schedule_expiry now key row.expires_at (build_lease_entry repos row) s
            else over
      ]
      else cancel_timer key s

  -- The timer of a key goes off: when it is due it stops running, and its function is called with the
  -- entry it was built with.
  unfoldable pub fire_timer : LeaseKey → LeaseService r.Db → LeaseService r.Db
  fire_timer key s =
      maybe s
        (λ t.
          if t.running
          then if leb t.due now
            then expire_lease key t.captured (with_timers (insert key (stopped t) s.timers) s)
            else s
          else s)
        (lookup key s.timers)
