-- ===== src/Authority/Agreement.antt =====
-- The controllers of server/cmd/layout_roster_snapshot.go and the rules on both sides of them.
use bigfred.Base.{
  ℕ, ◌≡◌, ◌≢◌, refl, true, false, not, ◌&&◌, List, [], ◌∷◌, contains, nat_key, arith, Bool-cases,
  inl, inr, Map, lookup, insert, has, lookup-insert,
}
use bigfred.Authority.Policies.{
  allow, deny, can_drive_target, merge_extra, merge_user_ids, fold_drive_controllers,
  AllowedVehicle, DefinedTrain, can_drive, can_drive_train,
}

-- The merge keeps every user but 0 and those already seen.
contains-merge_extra :
    (u : ℕ) (ids : List ℕ) (seen : Map ℕ (Unit {0}))
    → u ≢ 0
    → contains u (merge_extra ids seen) ≡ (contains u ids && not (has u seen))
unfolding merge_extra contains
contains-merge_extra u [] seen n = ground arith
contains-merge_extra u (id ∷ ids) seen n = ground (
  arith,
  n,
  contains-merge_extra u ids seen n,
  contains-merge_extra u ids (insert id tt seen) n,
  lookup-insert u id tt seen,
)

contains-fold :
    (u owner : ℕ) (lessees : List ℕ)
    → u ≢ 0
    → contains owner lessees ≡ false
    → contains u (fold_drive_controllers owner lessees) ≡ (can_drive_target u owner lessees).allowed
unfolding fold_drive_controllers merge_user_ids can_drive_target allow deny contains merge_extra
    lookup
contains-fold u owner [] n h = ground (arith, n)
contains-fold u owner (l ∷ ls) n h = ground (arith, n, h, contains-merge_extra u (l ∷ ls) [] n)

-- The rule of the server and that of dcc-bus agree: for a user with an id other than 0, and an owner
-- who holds no lease of the own target, dcc-bus lets the user drive a vehicle or a train on the layout
-- with the controllers that the server publishes exactly where the server's rule does.
pub can_drive-fold_drive_controllers :
    (u owner : ℕ) (lessees : List ℕ) (v : AllowedVehicle) (t : DefinedTrain)
    → u ≢ 0
    → contains owner lessees ≡ false
    → v.controller_user_ids ≡ fold_drive_controllers owner lessees
    → t.controller_user_ids ≡ fold_drive_controllers owner lessees
    → ((can_drive u v true).allowed ≡ (can_drive_target u owner lessees).allowed)
      × ((can_drive_train u t true).allowed ≡ (can_drive_target u owner lessees).allowed)
unfolding can_drive can_drive_train allow deny
can_drive-fold_drive_controllers u owner lessees v t n h p q =
    let e = contains-fold u owner lessees n h in
    elim (Bool-cases (can_drive_target u owner lessees).allowed) [
      | inl b ↦ (rw (p, e, b) refl, rw (q, e, b) refl)
      | inr b ↦ (rw (p, e, b) refl, rw (q, e, b) refl)
    ]
