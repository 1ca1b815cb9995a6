-- ===== src/Authority/Policies.antt =====
-- server/security/drive.go and decision.go, server/helpers/userids.go, foldDriveControllers of
-- server/cmd/layout_roster_snapshot.go, and dcc-bus/security/drive.go with contract/trains.go.
use bigfred.Base.{
  ℕ, Bool, true, false, not, ◌&&◌, ◌||◌, String, Option, none, some, List, [], ◌∷◌, is_some,
  contains, ◌==◌, nat_key, if◌then◌else◌, Map, insert, has,
}

pub record Decision : Type 0 where
  pub allowed : Bool
  pub reason : String

unfoldable pub allow : Decision
allow = record { allowed = true; reason = "" }

unfoldable pub deny : String → Decision
deny reason = record { allowed = false; reason = reason }

abbrev no_users : List ℕ → Bool
no_users [] = true
no_users (id ∷ ids) = false

-- The server's rule for an owner and the holders of active leases.
unfoldable pub can_drive_target : ℕ → ℕ → List ℕ → Decision
can_drive_target actor owner lessees =
    if actor == owner
    then (if no_users lessees then allow else deny "not_authorized_to_drive")
    else if contains actor lessees
    then allow
    else deny "not_authorized_to_drive"

-- The loop of MergeUserIDs over `extra`, with the set `seen`.
unfoldable pub merge_extra : List ℕ → Map ℕ (Unit {0}) → List ℕ
merge_extra [] seen = []
merge_extra (id ∷ ids) seen =
    let skipped = merge_extra ids seen in
    let rest = merge_extra ids (insert id tt seen) in
    if id == 0 || has id seen then skipped else id ∷ rest

unfoldable pub merge_user_ids : ℕ → List ℕ → List ℕ
merge_user_ids primary extra =
    if primary == 0 && no_users extra
    then []
    else if primary == 0
    then merge_extra extra []
    else primary ∷ merge_extra extra (insert primary tt [])

unfoldable pub fold_drive_controllers : ℕ → List ℕ → List ℕ
fold_drive_controllers owner lessees =
    if no_users lessees then merge_user_ids owner [] else merge_user_ids 0 lessees

-- The fields of a published vehicle and train that the rules of dcc-bus read.
pub record AllowedVehicle : Type 0 where
  pub addr : ℕ
  pub controller_user_ids : List ℕ

pub record DefinedTrainMember : Type 0 where
  pub vehicle_id : String
  pub position : ℕ
  pub addr : Option ℕ
  pub exclude_from_speed : Bool

pub record DefinedTrain : Type 0 where
  pub members : List DefinedTrainMember
  pub controller_user_ids : List ℕ

unfoldable pub can_drive : ℕ → AllowedVehicle → Bool → Decision
can_drive user vehicle on_layout =
    if not on_layout
    then deny "vehicle_not_on_layout"
    else if contains user vehicle.controller_user_ids
    then allow
    else deny "not_authorized"

unfoldable pub leading_member : List DefinedTrainMember → Option DefinedTrainMember
leading_member [] = none
leading_member (m ∷ ms) =
    let rest = leading_member ms in
    if is_some m.addr && not m.exclude_from_speed then some m else rest

unfoldable pub can_drive_train : ℕ → DefinedTrain → Bool → Decision
can_drive_train user train known =
    if not known
    then deny "train_not_on_layout"
    else if not (contains user train.controller_user_ids)
    then deny "not_authorized_to_drive"
    else allow

unfoldable pub can_drive_train_members : DefinedTrain → Decision
can_drive_train_members train =
    if is_some (leading_member train.members) then allow else deny "train_no_powered_members"
