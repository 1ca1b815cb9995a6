-- ===== src/Authority/Tests.antt =====
-- A vehicle of user 1 that users 2 and 3 have leased.
use bigfred.Base.{
  ℕ, ◌≡◌, refl, true, false, some, none, List, [], ◌∷◌, contains, nat_key, arith, lookup, insert,
}
use bigfred.Authority.Policies
use bigfred.Authority.Policies.{AllowedVehicle, DefinedTrain}
use bigfred.Authority.Agreement.{can_drive-fold_drive_controllers}

program : Unit {0}
unfolding contains lookup insert Policies.allow Policies.deny Policies.can_drive_target
    Policies.merge_extra Policies.merge_user_ids Policies.fold_drive_controllers Policies.can_drive
    Policies.can_drive_train Policies.leading_member Policies.can_drive_train_members
program = tt

abbrev controllers : List ℕ
controllers = 2 ∷ 3 ∷ []

abbrev vehicle : AllowedVehicle
vehicle = record { addr = 3; controller_user_ids = controllers }

abbrev train : DefinedTrain
train = record {
  members =
      record { vehicle_id = "coach"; position = 0; addr = none; exclude_from_speed = false }
      ∷ record { vehicle_id = "engine"; position = 1; addr = some 3; exclude_from_speed = false }
      ∷ [];
  controller_user_ids = controllers;
}

published : Policies.fold_drive_controllers 1 (2 ∷ 0 ∷ 3 ∷ 2 ∷ []) ≡ controllers
unfolding program
published = refl

owner_waits : Policies.can_drive 1 vehicle true ≡ Policies.deny "not_authorized"
unfolding program
owner_waits = refl

train_runs : Policies.can_drive_train_members train ≡ Policies.allow
unfolding program
train_runs = refl

can_drive-fold_drive_controllers_example :
    ((Policies.can_drive 3 vehicle true).allowed
      ≡ (Policies.can_drive_target 3 1 (2 ∷ 3 ∷ [])).allowed)
    × ((Policies.can_drive_train 3 train true).allowed
        ≡ (Policies.can_drive_target 3 1 (2 ∷ 3 ∷ [])).allowed)
unfolding program
can_drive-fold_drive_controllers_example =
    can_drive-fold_drive_controllers 3 1 (2 ∷ 3 ∷ []) vehicle train (omega arith) refl refl refl
