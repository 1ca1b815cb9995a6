-- ===== src/Lease/Tests.antt =====
-- A vehicle that user 1 lends to user 2, and the theorems on the drive leases there.
use bigfred.Base.{
  ℕ, ◌+◌, ◌≡◌, ◌⊎◌, inl, inr, Bool-cases, ap, sym, beq_eq, ◌||◌, ◌++◌, refl, true, false, Option,
  some, none, List, [], ◌∷◌, map, All, lookup, insert, erase, contains, nat_key, string_key, arith,
  ltb, ◌==◌, if◌then◌else◌,
}
use bigfred.Lease.Redis.{LeaseKey, LeaseWire, lease_key_key}
use bigfred.Lease.Store
use bigfred.Lease.Store.{LeaseRow, Answer, lease_from_wire, owner_key, lessee_key}
use bigfred.Lease.Register
use bigfred.Lease.Register.{StoreCall, Reply}
use bigfred.Lease.Register.Refinement.{exec_run-refines}
use bigfred.Lease.Service
use bigfred.Lease.Service.{
  LeaseEntry, ServiceError, LeaseService, LeaseTimer, Repositories, Result, RosterEntry, Target,
  User, LeaseEffect,
}
use bigfred.Lease.Commands
use bigfred.Lease.Commands.{Actor}
use bigfred.Lease.Histories
use bigfred.Lease.Histories.{Event, IsLeased, IsSoundWorld}
use bigfred.Lease.Histories.Soundness
use bigfred.Lease.Histories.Soundness.{events-IsSoundWorld, expiry-brakes}
use bigfred.Lease.Histories.Granting.{some_inj, sound-IsWritten, sound-IsLeased}
use bigfred.Lease.Histories.Recovery
use bigfred.Lease.Histories.Recovery.{recover_pending-IsSoundWorld}
use bigfred.Lease.Histories.Listing.{events-list}
use bigfred.Lease.Histories.Rights.{revoke-brakes, update_speed_limit-only}
use bigfred.Lease.Memory.{memory, plain, empty_db, MemoryDb}

program : Unit {0}
unfolding lookup insert erase contains Store.is_active Store.lease_wire Store.lease_ttl
    Store.ttl_milliseconds Store.from_wire Store.get_lease Store.lease_create_nx
    Store.create_lease_overwrite Store.create_lease Store.create_row Store.update_lease_key
    Store.update_row Store.revoke_lease_key Store.list_active Store.list_members
    Store.list_from_index Register.active_rows Register.spec Register.spec_run Register.exec
    Register.exec_run Service.user_login Service.target_name Service.build_lease_entry
    Service.audit_message Service.publish_event Service.refresh_timer_entry Service.schedule_expiry
    Service.cancel_timer Service.expire_on_layouts Service.expire_lease Service.fire_timer
    Commands.can_manage_granted_lease Commands.can_revoke_lease Commands.validate_lease_input
    Commands.on_roster Commands.resolve_target_owner Commands.ensure_lessee
    Commands.ensure_on_layout Commands.layout_roster_index Commands.enrich_indexed
    Commands.ensure_not_leased Commands.create_checks Commands.create Commands.load_lease
    Commands.revoke_in_store Commands.revoke_loaded Commands.revoke Commands.update_stored
    Commands.update_loaded Commands.update_speed_limit Commands.update_duration
    Commands.recover_pending Commands.list_received Histories.event Histories.events
    Soundness.braked Store.find_row
program = tt

abbrev loco : LeaseKey
loco = record { kind = "vehicle"; target_id = "loco" }

abbrev find_user : ℕ → Option User
find_user n =
    if n == 1
    then some (record { id = 1; login = "ann"; active = true })
    else if n == 2
    then some (record { id = 2; login = "bob"; active = true })
    else if n == 3
    then some (record { id = 3; login = "eve"; active = true })
    else none

-- Layout 7 has the vehicle of user 1.
abbrev repos : Repositories
repos = record {
  has_stores = true;
  find_vehicle = λ id. some (record { name = "Loco"; owner_user_id = 1; dcc_address = some 3 });
  find_train = λ id. none;
  find_user = find_user;
  list_vehicles = λ layout. some (record { target_id = "loco"; owner_user_id = 1 } ∷ []);
  list_trains = λ layout. some [];
  layout_ids = λ key. 7 ∷ [];
}

abbrev ann : Actor
ann = record { id = 1; login = "ann"; is_admin = false }

abbrev wire : LeaseWire
wire = record {
  from_user_id = 1;
  to_user_id = 2;
  speed_limit = 50;
  started_at = 1000;
  expires_at = 61000;
  source = "manual";
}

abbrev new_service : LeaseService MemoryDb
new_service = record { db = empty_db; timers = []; effects = [] }

new_IsSoundWorld : IsSoundWorld memory plain (1000, new_service)
new_IsSoundWorld key raw e = cc

-- User 1 lends the vehicle to user 2 for a minute, with a limit of 50.
abbrev lend : Event
lend = Event.create_event repos 7 ann loco 2 50 60000

abbrev lent : LeaseService MemoryDb
lent = (Commands.create memory plain repos 1000 7 ann loco 2 50 60000 new_service).1

lent_wire : memory.get loco lent.db ≡ some (some wire)
unfolding program
lent_wire = refl

abbrev history : List Event
history =
    lend
    ∷ Event.limit_event repos 7 ann loco 80
    ∷ Event.time_event 30000
    ∷ Event.duration_event repos 7 ann loco 120000
    ∷ Event.received_event repos 7 2
    ∷ Event.timer_event repos loco
    ∷ []

events-IsSoundWorld_example :
    IsSoundWorld memory plain (Histories.events memory plain history (1000, new_service))
events-IsSoundWorld_example =
    events-IsSoundWorld memory plain history (1000, new_service) new_IsSoundWorld

abbrev changed_wire : LeaseWire
changed_wire = record {
  from_user_id = 1;
  to_user_id = 2;
  speed_limit = 80;
  started_at = 1000;
  expires_at = 151000;
  source = "manual";
}

history_wire :
    memory.get loco (Histories.events memory plain history (1000, new_service)).1.db
    ≡ some (some changed_wire)
unfolding program
history_wire = refl

lent-IsLeased : IsLeased memory plain 1000 lent loco wire
unfolding Histories.events Histories.event
lent-IsLeased =
    sound-IsLeased memory plain 1000 lent loco wire
      (events-IsSoundWorld memory plain (lend ∷ []) (1000, new_service) new_IsSoundWorld loco)
      lent_wire

expiry-brakes_example :
    let s =
      Service.fire_timer memory plain repos
        (1000 + 60000)
        loco
        (Service.with_db (memory.pass 60000 lent.db) lent) in
    (memory.get loco (memory.pass 60000 lent.db) ≡ none)
    × All (λ layout. Soundness.braked layout loco s.effects ≡ true) (7 ∷ [])
    × (lookup loco s.timers ≡ none)
expiry-brakes_example =
    expiry-brakes memory plain repos 1000 60000 lent loco wire lent-IsLeased (omega arith)

events-list_example :
    (Store.find_row loco
        (Store.list_from_index memory plain
          (owner_key "vehicle" 1)
          (Histories.events memory plain history (1000, new_service)).1.db).0
      ≡ some (lease_from_wire loco changed_wire))
    × (Store.find_row loco
          (Store.list_from_index memory plain
            (lessee_key "vehicle" 2)
            (Histories.events memory plain history (1000, new_service)).1.db).0
        ≡ some (lease_from_wire loco changed_wire))
events-list_example =
    events-list memory plain history (1000, new_service) loco changed_wire new_IsSoundWorld
      history_wire

-- The calls of the store on a row, with time in between.
abbrev row : LeaseRow
row = lease_from_wire loco wire

abbrev store_calls : List StoreCall
store_calls =
    StoreCall.create_call 1000 row false
    ∷ StoreCall.create_call 1000 row false
    ∷ StoreCall.pass_call 500
    ∷ StoreCall.get_call loco
    ∷ StoreCall.list_call (lessee_key "vehicle" 2)
    ∷ StoreCall.revoke_call loco
    ∷ StoreCall.update_call 1500 row
    ∷ []

replies :
    (Register.exec_run memory plain store_calls empty_db).0
    ≡ Reply.created true
      ∷ Reply.created false
      ∷ Reply.silent
      ∷ Reply.got (Answer.answer (some row))
      ∷ Reply.listed_by_key (λ k. Store.find_row k (row ∷ []))
      ∷ Reply.changed (Answer.answer tt)
      ∷ Reply.changed (Answer.failed Store.StoreError.lease_not_found)
      ∷ []
unfolding program
replies = refl

abbrev no_leases : Register.Register
no_leases = record { lease = λ k. none; members = λ l k. false }

exec_run-refines_example :
    ((Register.exec_run memory plain store_calls empty_db).0
      ≡ (Register.spec_run store_calls no_leases).0)
    × Register.Agrees memory plain
        (Register.exec_run memory plain store_calls empty_db).1
        (Register.spec_run store_calls no_leases).1
unfolding program
exec_run-refines_example =
    exec_run-refines memory plain store_calls empty_db no_leases (λ k. (refl, refl, λ l. refl))

lent-IsWritten :
    (raw : Option LeaseWire) → memory.get loco lent.db ≡ some raw → (w : LeaseWire) × (raw ≡ some w)
unfolding Histories.events Histories.event
lent-IsWritten =
    sound-IsWritten memory plain 1000 lent loco
      (events-IsSoundWorld memory plain (lend ∷ []) (1000, new_service) new_IsSoundWorld loco)

revoke-brakes_example :
    let after = Commands.revoke memory plain repos 2000 7 ann loco lent in
    ((e : ServiceError) × (after ≡ (Result.err e, lent)))
    ⊎ ((w : LeaseWire) × (rest : List LeaseEffect) × (memory.get loco lent.db ≡ some (some w))
        × ((1 == w.from_user_id || (1 == w.to_user_id || false)) ≡ true)
        × (after.1.effects
            ≡ ((lent.effects ++ (LeaseEffect.stop_leased_target 7 loco ∷ []))
                ++ (LeaseEffect.delete_lease loco ∷ []))
              ++ rest)
        × (after.0 ≡ Result.ok tt)
        × (memory.get loco after.1.db ≡ none)
        × (lookup loco after.1.timers ≡ none))
revoke-brakes_example = revoke-brakes memory plain repos 2000 7 ann loco lent lent-IsWritten

update_speed_limit-only_example :
    let after = Commands.update_speed_limit memory plain repos 2000 7 ann loco 80 lent in
    ((e : ServiceError) × (after ≡ (Result.err e, lent)))
    ⊎ ((w : LeaseWire) × (memory.get loco lent.db ≡ some (some w))
        × ((1 == w.from_user_id || false) ≡ true)
        × (ltb 100 80 ≡ false)
        × (after.0
            ≡ Result.ok (
                Service.build_lease_entry repos
                  (Commands.with_limit memory plain repos 2000 80 (lease_from_wire loco w))))
        × (memory.get loco after.1.db
            ≡ some (
                some (record {
                  from_user_id = w.from_user_id;
                  to_user_id = w.to_user_id;
                  speed_limit = 80;
                  started_at = w.started_at;
                  expires_at = w.expires_at;
                  source = if w.source == "" then "manual" else w.source;
                })))
        × (memory.pttl loco after.1.db + 2000 ≡ w.expires_at))
update_speed_limit-only_example =
    update_speed_limit-only memory plain repos 2000 7 ann loco 80 lent lent-IsWritten

-- A lease runs out without being revoked, and the vehicle is lent to another user: the index of the
-- first lessee still has the key, and the listing answers the lease of the other.
abbrev entries : Result (List LeaseEntry) → List LeaseEntry
entries (Result.ok es) = es
entries (Result.err e) = []

abbrev limit_of : LeaseEffect → ℕ
limit_of (LeaseEffect.broadcast_lease l u t e) = e.speed_limit
limit_of (LeaseEffect.audit_publish l u n m e) = e.speed_limit
limit_of e = 0

abbrev lent_again : LeaseService MemoryDb
lent_again =
    (Commands.create memory plain repos 61000 7 ann loco 3 50 60000
      (Service.with_db (memory.pass 60000 lent.db) new_service)).1

received_by_2 :
    map
      (λ e. e.to_user_id)
      (entries (Commands.list_received memory plain repos 61000 7 2 lent_again).0)
    ≡ 3 ∷ []
unfolding program
received_by_2 = refl

-- The limit goes to 80 and the lease runs out: the event of its end tells the old limit.
abbrev ended : LeaseService MemoryDb
ended =
    let changed = (Commands.update_speed_limit memory plain repos 2000 7 ann loco 80 lent).1 in
    Service.fire_timer memory plain repos 61000 loco (
      Service.with_db (memory.pass 60000 changed.db)
        (record { db = changed.db; timers = changed.timers; effects = [] }))

told_limits : map limit_of ended.effects ≡ 0 ∷ 0 ∷ 50 ∷ 50 ∷ 50 ∷ []
unfolding program
told_limits = refl

row_at : (key : LeaseKey) (w : LeaseWire) → loco ≡ key → wire ≡ w → row ≡ lease_from_wire key w
row_at key w p q = rw (sym p, sym q) refl

-- The server restarts, and the scan of the lease keys finds the one row.
lent_found :
    (key : LeaseKey) (w : LeaseWire)
    → memory.get key lent.db ≡ some (some w)
    → Store.find_row key (row ∷ []) ≡ some (lease_from_wire key w)
unfolding program
lent_found key w e = elim (Bool-cases (loco == key)) [
  | inr p ↦ let never = rw p at e in cc
  | inl p ↦
      let here = rw p at e in
      rw p (ap some (row_at key w (beq_eq loco key p) (some_inj _ _ (some_inj _ _ here))))
]

lent-IsHeld : Recovery.IsHeld memory plain repos 1000 lent.db row
unfolding program
lent-IsHeld = refl

recover_pending-IsSoundWorld_example : IsSoundWorld memory plain (
  1000,
  Commands.recover_pending memory plain repos 1000 (row ∷ []) (Service.with_timers [] lent),
)
unfolding Histories.events Histories.event
recover_pending-IsSoundWorld_example =
    recover_pending-IsSoundWorld memory plain repos 1000 (row ∷ []) lent
      (events-IsSoundWorld memory plain (lend ∷ []) (1000, new_service) new_IsSoundWorld)
      (lent-IsHeld, tt) lent_found
