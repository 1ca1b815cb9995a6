-- ===== src/Lease/Brake/Tests.antt =====
-- A train whose lease ends, and whom its stop reaches.
use bigfred.Base.{
  ℕ, ◌≡◌, ◌++◌, refl, Bool, true, String, some, none, List, [], ◌∷◌, map, lookup, insert, contains,
  nat_key, string_key, ◌==◌,
}
use bigfred.Lease.Brake
use bigfred.Lease.Brake.{DriveRoster, EStopTargetCommand, RosterTrain, RosterVehicle}
use bigfred.Lease.Brake.Reach.{stop_leased_target-reaches_members}

program : Unit {0}
unfolding lookup insert contains Brake.vehicle_drive_addrs Brake.roster_train_entry
    Brake.addr_by_vehicle Brake.member_addrs Brake.train_drive_addrs
    Brake.resolve_drive_target_addrs Brake.publish_all Brake.stop_addresses Brake.stop_leased_target
program = tt

-- A train of two vehicles with an address and one without, on a layout with two command stations, of
-- which the first does not take the stop.
abbrev banked : RosterTrain
banked = record { id = "goods"; members = "loco" ∷ "van" ∷ "bank" ∷ [] }

abbrev bank : RosterVehicle
bank = record { id = "bank"; dcc_address = some 9 }

abbrev others : List RosterVehicle
others =
    record { id = "loco"; dcc_address = some 3 } ∷ record { id = "van"; dcc_address = none } ∷ []

abbrev roster : DriveRoster
roster = record {
  list_vehicles = λ layout. some (others ++ bank ∷ []);
  list_trains = λ layout. some (banked ∷ []);
}

abbrev second_only : EStopTargetCommand → Bool
second_only c = c.command_station_id == 22

train_stop :
    Brake.stop_leased_target second_only roster
      (λ layout. some (11 ∷ 22 ∷ []))
      7
      (record { kind = "train"; target_id = "goods" })
    ≡ (
      some Brake.BrakeError.publish_failed,
      record { layout_id = 7; command_station_id = 11; addresses = 3 ∷ 9 ∷ [] }
          ∷ record { layout_id = 7; command_station_id = 22; addresses = 3 ∷ 9 ∷ [] }
          ∷ [],
    )
unfolding program
train_stop = refl

banked_entry : Brake.roster_train_entry (banked ∷ []) "goods" ≡ some banked
unfolding program
banked_entry = refl

bank_member : contains {A = String} "bank" ("loco" ∷ "van" ∷ "bank" ∷ []) ≡ true
unfolding program
bank_member = refl

stop_leased_target-reaches_members_example :
    (addresses : List ℕ) × (contains {A = ℕ} 9 addresses ≡ true)
    × ((Brake.stop_leased_target second_only roster
          (λ layout. some (11 ∷ 22 ∷ []))
          7
          (record { kind = "train"; target_id = "goods" })).1
        ≡ map
            (λ cs. record { layout_id = 7; command_station_id = cs; addresses = addresses })
            (11 ∷ 22 ∷ []))
stop_leased_target-reaches_members_example =
    stop_leased_target-reaches_members second_only roster (λ layout. some (11 ∷ 22 ∷ [])) 7 9
      "goods" others [] bank (banked ∷ []) banked (11 ∷ 22 ∷ []) refl refl refl banked_entry
      bank_member refl tt
