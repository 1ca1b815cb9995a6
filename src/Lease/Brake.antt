-- ===== src/Lease/Brake.antt =====
-- server/cmd/drive_target_addrs.go and server/cmd/lease_brake.go: the emergency stop that ends a lease.
-- Whether a command station takes the command is an answer of the dcc-bus, which is asked for each.
use bigfred.Base.{
  ℕ, ◌+◌, ◌≡◌, refl, Bool, true, false, not, ◌&&◌, ◌||◌, String, Option, none, some, List, [], ◌∷◌,
  Map, map, lookup, insert, contains, maybe, ◌==◌, nat_key, string_key, if◌then◌else◌, arith, inl,
  inr, Bool-cases, Option-cases, is_some,
}
use bigfred.Lease.Redis.{LeaseKey}
pub mod Reach
mod Tests

-- A vehicle of the roster: the id and the address on the track, if it has one.
pub record RosterVehicle : Type 0 where
  pub id : String
  pub dcc_address : Option ℕ

pub record RosterTrain : Type 0 where
  pub id : String
  pub members : List String

pub data BrakeError : Type 0 where
  not_on_layout invalid_state roster_failed stations_failed publish_failed : BrakeError

pub data Resolved : Type 0 where
  addrs : List ℕ → Resolved
  unresolved : BrakeError → Resolved

unfoldable pub vehicle_drive_addrs : List RosterVehicle → String → Resolved
vehicle_drive_addrs [] id = Resolved.unresolved BrakeError.not_on_layout
vehicle_drive_addrs (v ∷ vs) id =
    let rest = vehicle_drive_addrs vs id in
    if v.id == id then Resolved.addrs (maybe [] (λ a. a ∷ []) v.dcc_address) else rest

unfoldable pub roster_train_entry : List RosterTrain → String → Option RosterTrain
roster_train_entry [] id = none
roster_train_entry (t ∷ ts) id =
    let rest = roster_train_entry ts id in if t.id == id then some t else rest

-- `addrByVehicle`, filled in the order of the roster.
unfoldable pub addr_by_vehicle : List RosterVehicle → Map String ℕ → Map String ℕ
addr_by_vehicle [] m = m
addr_by_vehicle (v ∷ vs) m = addr_by_vehicle vs (maybe m (λ a. insert v.id a m) v.dcc_address)

unfoldable pub member_addrs : Map String ℕ → List String → List ℕ
member_addrs m [] = []
member_addrs m (id ∷ ids) =
    let rest = member_addrs m ids in maybe rest (λ a. a ∷ rest) (lookup id m)

unfoldable pub train_drive_addrs : List RosterVehicle → List RosterTrain → String → Resolved
train_drive_addrs vs ts id =
    maybe (Resolved.unresolved BrakeError.not_on_layout)
      (λ t. Resolved.addrs (member_addrs (addr_by_vehicle vs []) t.members))
      (roster_train_entry ts id)

-- The roster of a layout, where `none` is a read that fails.
pub record DriveRoster : Type 0 where
  pub list_vehicles : ℕ → Option (List RosterVehicle)
  pub list_trains : ℕ → Option (List RosterTrain)

unfoldable pub resolve_drive_target_addrs : DriveRoster → ℕ → LeaseKey → Resolved
resolve_drive_target_addrs roster layout key =
    maybe (Resolved.unresolved BrakeError.roster_failed)
      (λ vs.
        if key.kind == "vehicle"
        then vehicle_drive_addrs vs key.target_id
        else if key.kind == "train"
        then maybe (Resolved.unresolved BrakeError.roster_failed)
            (λ ts. train_drive_addrs vs ts key.target_id) (roster.list_trains layout)
        else Resolved.unresolved BrakeError.invalid_state)
      (roster.list_vehicles layout)

-- system.estopTarget for addresses, to a command station of a layout.
pub record EStopTargetCommand : Type 0 where
  pub layout_id : ℕ
  pub command_station_id : ℕ
  pub addresses : List ℕ

module _ (takes : EStopTargetCommand → Bool) where
  -- The loop over the command stations goes on after a failure and keeps the last one.
  unfoldable pub publish_all :
      ℕ → List ℕ → List ℕ → Option BrakeError → Option BrakeError × List EStopTargetCommand
  publish_all layout addresses [] last = (last, [])
  publish_all layout addresses (cs ∷ css) last =
      let command : EStopTargetCommand = record {
        layout_id = layout;
        command_station_id = cs;
        addresses = addresses;
      } in
      let next = if takes command then last else some BrakeError.publish_failed in
      let (result, rest) = publish_all layout addresses css next in (result, command ∷ rest)

  unfoldable pub stop_addresses :
      (ℕ → Option (List ℕ)) → ℕ → List ℕ → Option BrakeError × List EStopTargetCommand
  stop_addresses stations layout [] = (none, [])
  stop_addresses stations layout (a ∷ addresses) =
      maybe (some BrakeError.stations_failed, [])
        (λ css. publish_all layout (a ∷ addresses) css none) (stations layout)

  unfoldable pub stop_leased_target :
      DriveRoster
      → (ℕ → Option (List ℕ))
      → ℕ
      → LeaseKey
      → Option BrakeError × List EStopTargetCommand
  stop_leased_target roster stations layout key =
      elim (resolve_drive_target_addrs roster layout key) [
        | Resolved.addrs addresses ↦ stop_addresses stations layout addresses
        | Resolved.unresolved BrakeError.not_on_layout ↦ (none, [])
        | Resolved.unresolved e ↦ (some e, [])
      ]
