-- ===== src/Lease/Brake/Reach.antt =====
-- Whom the emergency stop of server/cmd/lease_brake.go reaches.
use bigfred.Base.{
  ℕ, ◌≡◌, ◌≢◌, refl, ◌∙◌, Bool, true, String, Option, none, some, List, [], ◌∷◌, ◌++◌, Map, map,
  All, lookup, insert, lookup-insert, lookup-insert_self, contains, maybe, ◌==◌, nat_key,
  string_key, arith, inl, inr, Bool-cases, Option-cases, beq_eq, beq_refl, beq_ne,
}
use bigfred.Lease.Brake.{
  RosterVehicle, RosterTrain, Resolved, DriveRoster, BrakeError, EStopTargetCommand,
  roster_train_entry, addr_by_vehicle, member_addrs, train_drive_addrs, resolve_drive_target_addrs,
  publish_all, stop_addresses, stop_leased_target,
}

-- An address that a member has on the roster is resolved.
member_addrs-contains :
    (m : Map String ℕ) (ids : List String) (id : String) (a : ℕ)
    → contains id ids ≡ true
    → lookup id m ≡ some a
    → contains a (member_addrs m ids) ≡ true
unfolding member_addrs contains
member_addrs-contains m [] id a c e = cc
member_addrs-contains m (i ∷ ids) id a c e = elim (Bool-cases (i == id)) [
  | inl p ↦
      let here : lookup i m ≡ some a = rw (beq_eq i id p) e in
      rw (member_addrs, here, contains, beq_refl a) refl
  | inr p ↦
      let rest = member_addrs-contains m ids id a (rw p at c) e in
      elim (Option-cases (lookup i m)) [
        | inl q ↦ rw (member_addrs, q) rest
        | inr (b, q) ↦ rw (member_addrs, q, contains, rest) (ground arith)
      ]
]

-- The vehicles after one with another id leave its address alone.
addr_by_vehicle-other :
    (vs : List RosterVehicle) (id : String) (m : Map String ℕ)
    → All (λ v. v.id ≢ id) vs
    → lookup id (addr_by_vehicle vs m) ≡ lookup id m
unfolding addr_by_vehicle
addr_by_vehicle-other [] id m h = refl
addr_by_vehicle-other (v ∷ vs) id m h = elim (Option-cases v.dcc_address) [
  | inl q ↦ rw (addr_by_vehicle, q) (addr_by_vehicle-other vs id m h.1)
  | inr (a, q) ↦
      rw (addr_by_vehicle, q)
        (addr_by_vehicle-other vs id (insert v.id a m) h.1
          ∙ rw (lookup-insert id v.id a m, beq_ne v.id id h.0) refl)
]

addr_by_vehicle-finds :
    (before after : List RosterVehicle) (v : RosterVehicle) (a : ℕ) (m : Map String ℕ)
    → v.dcc_address ≡ some a
    → All (λ x. x.id ≢ v.id) after
    → lookup v.id (addr_by_vehicle (before ++ v ∷ after) m) ≡ some a
unfolding addr_by_vehicle
addr_by_vehicle-finds [] after v a m q h =
    rw (addr_by_vehicle, q)
      (addr_by_vehicle-other after v.id (insert v.id a m) h ∙ lookup-insert_self v.id a m)
addr_by_vehicle-finds (x ∷ before) after v a m q h =
    addr_by_vehicle-finds before after v a (maybe m (λ b. insert x.id b m) x.dcc_address) q h

resolved-train :
    (roster : DriveRoster) (layout : ℕ) (id : String) (vs : List RosterVehicle)
    (ts : List RosterTrain) (t : RosterTrain)
    → roster.list_vehicles layout ≡ some vs
    → roster.list_trains layout ≡ some ts
    → roster_train_entry ts id ≡ some t
    → resolve_drive_target_addrs roster layout (record { kind = "train"; target_id = id })
      ≡ Resolved.addrs (member_addrs (addr_by_vehicle vs []) t.members)
unfolding resolve_drive_target_addrs train_drive_addrs
resolved-train roster layout id vs ts t rv rt e =
    rw (rv, resolve_drive_target_addrs, rt, train_drive_addrs, e) refl

module _ (takes : EStopTargetCommand → Bool) where
  abbrev estop_at : ℕ → List ℕ → ℕ → EStopTargetCommand
  estop_at layout addresses cs = record {
    layout_id = layout;
    command_station_id = cs;
    addresses = addresses;
  }

  publish_all-commands :
      (layout : ℕ) (addresses css : List ℕ) (last : Option BrakeError)
      → (publish_all takes layout addresses css last).1 ≡ map (estop_at layout addresses) css
  unfolding publish_all
  publish_all-commands layout addresses [] last = refl
  publish_all-commands layout addresses (cs ∷ css) last =
      rw (publish_all-commands layout addresses css _) refl

  stop_addresses-commands :
      (stations : ℕ → Option (List ℕ)) (layout a : ℕ) (addresses css : List ℕ)
      → contains a addresses ≡ true
      → stations layout ≡ some css
      → (stop_addresses takes stations layout addresses).1 ≡ map (estop_at layout addresses) css
  unfolding stop_addresses contains
  stop_addresses-commands stations layout a [] css c e = cc
  stop_addresses-commands stations layout a (b ∷ bs) css c e =
      rw (e, stop_addresses) (publish_all-commands layout (b ∷ bs) css none)

  -- The stop of a train reaches each of its members that has an address: when the rosters and the
  -- command stations of the layout can be read, every command station is sent one stop, whether or not
  -- the others take it, for addresses among which is the member's, if no later vehicle of the
  -- roster has its id.
  pub stop_leased_target-reaches_members :
      (roster : DriveRoster) (stations : ℕ → Option (List ℕ)) (layout a : ℕ) (id : String)
      (before after : List RosterVehicle) (v : RosterVehicle) (ts : List RosterTrain)
      (t : RosterTrain) (css : List ℕ)
      → roster.list_vehicles layout ≡ some (before ++ v ∷ after)
      → roster.list_trains layout ≡ some ts
      → stations layout ≡ some css
      → roster_train_entry ts id ≡ some t
      → contains v.id t.members ≡ true
      → v.dcc_address ≡ some a
      → All (λ x. x.id ≢ v.id) after
      → (addresses : List ℕ) × (contains a addresses ≡ true)
        × ((stop_leased_target takes roster stations layout
              (record { kind = "train"; target_id = id })).1
            ≡ map
                (λ cs. record {
                  layout_id = layout;
                  command_station_id = cs;
                  addresses = addresses;
                })
                css)
  unfolding stop_leased_target resolve_drive_target_addrs train_drive_addrs
  stop_leased_target-reaches_members roster stations layout a id before after v ts t css rv rt rs e
        c q h =
      let addresses = member_addrs (addr_by_vehicle (before ++ v ∷ after) []) t.members in
      let found =
        member_addrs-contains (addr_by_vehicle (before ++ v ∷ after) []) t.members v.id a c
          (addr_by_vehicle-finds before after v a [] q h) in
      (
        addresses,
        found,
        rw (resolved-train roster layout id _ ts t rv rt e, stop_leased_target)
            (stop_addresses-commands stations layout a addresses css found rs),
      )
