-- ===== src/Lease/Histories.antt =====
-- Histories of the lease service of server/cmd/lease.go: calls, timers that go off, and time that goes
-- by for the clock and for Redis alike. Each call reads repositories of its own.
use bigfred.Base.{
  ℕ, ◌+◌, ◌-◌, ◌≡◌, ◌≢◌, ◌≤◌, ◌<◌, Bool, true, false, String, Option, none, some, List, [], ◌∷◌,
  lookup, contains, nat_key, string_key,
}
use bigfred.Lease.Redis.{LeaseKey, Redis, LeaseWire, Json, lease_key_key}
use bigfred.Lease.Store.{owner_key, lessee_key}
use bigfred.Lease.Service.{Repositories, LeaseTimer, LeaseService, with_db, fire_timer, has_kind}
use bigfred.Lease.Commands.{
  Actor, lease_max_duration, create, revoke, update_speed_limit, update_duration, list_received,
}
pub mod Frames
pub mod Granting
pub mod Changing
pub mod Ending
pub mod Soundness
pub mod Listing
pub mod Rights
pub mod Recovery

pub data Event : Type 0 where
  create_event : Repositories → ℕ → Actor → LeaseKey → ℕ → ℕ → ℕ → Event
  revoke_event : Repositories → ℕ → Actor → LeaseKey → Event
  limit_event : Repositories → ℕ → Actor → LeaseKey → ℕ → Event
  duration_event : Repositories → ℕ → Actor → LeaseKey → ℕ → Event
  received_event : Repositories → ℕ → ℕ → Event
  timer_event : Repositories → LeaseKey → Event
  time_event : ℕ → Event

module _ (r : Redis) (j : Json r.Payload) where
  -- The clock and the service.
  abbrev pub World : Type 0
  World = ℕ × LeaseService r.Db

  unfoldable pub event : Event → World → World
  event (Event.create_event repos layout actor key to limit duration) (now, s) =
      (now, (create r j repos now layout actor key to limit duration s).1)
  event (Event.revoke_event repos layout actor key) (now, s) =
      (now, (revoke r j repos now layout actor key s).1)
  event (Event.limit_event repos layout actor key limit) (now, s) =
      (now, (update_speed_limit r j repos now layout actor key limit s).1)
  event (Event.duration_event repos layout actor key duration) (now, s) =
      (now, (update_duration r j repos now layout actor key duration s).1)
  event (Event.received_event repos layout user) (now, s) =
      (now, (list_received r j repos now layout user s).1)
  event (Event.timer_event repos key) (now, s) = (now, fire_timer r j repos now key s)
  event (Event.time_event d) (now, s) = (now + d, with_db (r.pass d s.db) s)

  unfoldable pub events : List Event → World → World
  events [] w = w
  events (e ∷ es) w = events es (event e w)

  -- A lease that Redis holds is in force and goes when it ends, keeps to the limits, stands in the
  -- index of either party, and has a timer that runs up to its end.
  pub record IsLeased (now : ℕ) (s : LeaseService r.Db) (key : LeaseKey) (wire : LeaseWire)
      : Type 0 where
    pub timer : LeaseTimer
    pub kind : has_kind key ≡ true
    pub in_force : now < wire.expires_at
    pub ttl : r.pttl key s.db + now ≡ wire.expires_at
    pub limit_le : wire.speed_limit ≤ 100
    pub parties : wire.from_user_id ≢ wire.to_user_id
    pub expiry_le : wire.expires_at ≤ now + lease_max_duration
    pub owner_indexed : contains key (r.smembers (owner_key key.kind wire.from_user_id) s.db) ≡ true
    pub lessee_indexed : contains key (r.smembers (lessee_key key.kind wire.to_user_id) s.db) ≡ true
    pub armed : lookup key s.timers ≡ some timer
    pub running : timer.running ≡ true
    pub due : timer.due ≡ wire.expires_at
    pub captured_from : timer.captured.from_user_id ≡ wire.from_user_id
    pub captured_to : timer.captured.to_user_id ≡ wire.to_user_id

  abbrev pub IsSoundAt : ℕ → LeaseService r.Db → LeaseKey → Type 0
  IsSoundAt now s key =
      (raw : r.Payload)
      → r.get key s.db ≡ some raw
      → (wire : LeaseWire) × (raw ≡ j.marshal_lease wire) × IsLeased now s key wire

  abbrev pub IsSoundWorld : World → Type 0
  IsSoundWorld (now, s) = (key : LeaseKey) → IsSoundAt now s key
