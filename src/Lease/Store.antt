-- ===== src/Lease/Store.antt =====
-- server/repo/leases_redis.go: the lease store on Redis, and domain/lease.go. The store of the vehicle
-- leases and that of the train leases are copies of each other; here the kind in the key tells them
-- apart. A WATCH transaction that loses a race is tried again, and here it is one step.
use bigfred.Base.{
  ℕ, ◌≡◌, refl, ◌-◌, Bool, true, false, String, Option, none, some, List, [], ◌∷◌, ltb, leb, maybe,
  is_some, ◌==◌, string_key, if◌then◌else◌,
}
use bigfred.Lease.Redis.{LeaseKey, Party, IndexKey, Redis, LeaseWire, Json, lease_key_key}

-- domain's VehicleLease and TrainLease
pub record LeaseRow : Type 0 where
  pub key : LeaseKey
  pub from_user_id : ℕ
  pub to_user_id : ℕ
  pub speed_limit : ℕ
  pub started_at : ℕ
  pub expires_at : ℕ
  pub source : String

unfoldable pub is_active : ℕ → LeaseRow → Bool
is_active now row = ltb now row.expires_at

abbrev pub owner_key : String → ℕ → IndexKey
owner_key kind user = record { party = Party.by_owner; kind = kind; user_id = user }

abbrev pub lessee_key : String → ℕ → IndexKey
lessee_key kind user = record { party = Party.by_lessee; kind = kind; user_id = user }

pub data StoreError : Type 0 where
  lease_not_found undecodable : StoreError

-- What a read answers: a value, or the payload's decoding error.
pub data Answer {ℓ} (A : Type ℓ) : Type ℓ where
  answer : A → Answer A
  failed : StoreError → Answer A

-- The wire form of marshalVehicleLease and marshalTrainLease, before it is encoded.
unfoldable pub lease_wire : LeaseRow → LeaseWire
lease_wire row = record {
  from_user_id = row.from_user_id;
  to_user_id = row.to_user_id;
  speed_limit = row.speed_limit;
  started_at = row.started_at;
  expires_at = row.expires_at;
  source = if row.source == "" then "manual" else row.source;
}

-- A lease that is over is kept for a second.
unfoldable pub lease_ttl : ℕ → LeaseRow → ℕ
lease_ttl now row = if leb row.expires_at now then 1000 else row.expires_at - now

unfoldable pub ttl_milliseconds : ℕ → ℕ
ttl_milliseconds ttl = if ltb ttl 1 then 1 else ttl

abbrev pub lease_from_wire : LeaseKey → LeaseWire → LeaseRow
lease_from_wire key wire = record {
  key = key;
  from_user_id = wire.from_user_id;
  to_user_id = wire.to_user_id;
  speed_limit = wire.speed_limit;
  started_at = wire.started_at;
  expires_at = wire.expires_at;
  source = wire.source;
}

-- The row of a key in a listing.
unfoldable pub find_row : LeaseKey → List LeaseRow → Option LeaseRow
find_row key [] = none
find_row key (row ∷ rows) = if row.key == key then some row else find_row key rows

module _ (r : Redis) (j : Json r.Payload) where
  open r use {Db, get, set, del, sadd, srem, smembers}
  open j use {marshal_lease, unmarshal_lease}

  unfoldable pub from_wire : LeaseKey → r.Payload → Answer LeaseRow
  from_wire key raw =
      maybe (Answer.failed StoreError.undecodable) (λ w. Answer.answer (lease_from_wire key w))
        (unmarshal_lease raw)

  unfoldable pub get_lease : LeaseKey → Db → Answer (Option LeaseRow)
  get_lease key db = elim (get key db) [
    | none ↦ Answer.answer none
    | some raw ↦ elim (from_wire key raw) [
      | Answer.answer row ↦ Answer.answer (some row)
      | Answer.failed e ↦ Answer.failed e
    ]
  ]

  -- leaseCreateNXScript
  unfoldable pub lease_create_nx : LeaseKey → r.Payload → ℕ → ℕ → ℕ → Db → Bool × Db
  lease_create_nx key payload ttl from to db = if is_some (get key db) then (false, db) else (
    true,
    sadd (lessee_key key.kind to) key
        (sadd (owner_key key.kind from) key (set key payload (ttl_milliseconds ttl) db)),
  )

  abbrev pub unindex : LeaseKey → LeaseWire → Db → Db
  unindex key wire db =
      srem (lessee_key key.kind wire.to_user_id) key
        (srem (owner_key key.kind wire.from_user_id) key db)

  unfoldable pub create_lease_overwrite : LeaseKey → r.Payload → ℕ → ℕ → ℕ → Db → Db
  create_lease_overwrite key payload ttl from to db =
      let old = maybe none unmarshal_lease (get key db) in
      let cleared = maybe db (λ wire. unindex key wire db) old in
      sadd (lessee_key key.kind to) key
        (sadd (owner_key key.kind from) key (set key payload ttl cleared))

  unfoldable pub create_lease : LeaseKey → r.Payload → ℕ → ℕ → ℕ → Bool → Db → Bool × Db
  create_lease key payload ttl from to overwrite db =
      if overwrite
      then (true, create_lease_overwrite key payload ttl from to db)
      else lease_create_nx key payload ttl from to db

  unfoldable pub create_row : ℕ → LeaseRow → Bool → Db → Bool × Db
  create_row now row overwrite db =
      create_lease row.key (marshal_lease (lease_wire row)) (lease_ttl now row) row.from_user_id
        row.to_user_id overwrite db

  unfoldable pub update_lease_key : LeaseKey → r.Payload → ℕ → Db → Answer (Unit {0}) × Db
  update_lease_key key payload ttl db =
      if is_some (get key db)
      then (Answer.answer tt, set key payload ttl db)
      else (Answer.failed StoreError.lease_not_found, db)

  unfoldable pub update_row : ℕ → LeaseRow → Db → Answer (Unit {0}) × Db
  update_row now row db =
      update_lease_key row.key (marshal_lease (lease_wire row)) (lease_ttl now row) db

  unfoldable pub revoke_lease_key : LeaseKey → Db → Answer (Unit {0}) × Db
  revoke_lease_key key db = elim (get key db) [
    | none ↦ (Answer.answer tt, db)
    | some raw ↦ elim (unmarshal_lease raw) [
      | none ↦ (Answer.failed StoreError.undecodable, db)
      | some wire ↦ (Answer.answer tt, unindex key wire (del key db))
    ]
  ]

  -- The rows that are there, decode and are in force, of the keys asked for, in order.
  unfoldable pub list_active : ℕ → List LeaseKey → Db → List LeaseRow
  list_active now [] db = []
  list_active now (key ∷ keys) db =
      let rest = list_active now keys db in
      elim (get_lease key db) [
        | Answer.answer (some row) ↦ if is_active now row then row ∷ rest else rest
        | _ ↦ rest
      ]

  -- listVehicleLeasesFromIndex over the members: a member whose key is gone leaves the index.
  unfoldable pub list_members : IndexKey → List LeaseKey → Db → List LeaseRow × Db
  list_members index [] db = ([], db)
  list_members index (key ∷ keys) db =
      let (rest, db') = list_members index keys db in
      elim (get key db) [
        | none ↦ (rest, srem index key db')
        | some raw ↦ elim (from_wire key raw) [
          | Answer.answer row ↦ (row ∷ rest, db')
          | Answer.failed e ↦ (rest, db')
        ]
      ]

  unfoldable pub list_from_index : IndexKey → Db → List LeaseRow × Db
  list_from_index index db = list_members index (smembers index db) db

  pub revoke_lease_key-absent :
      (key : LeaseKey) (db : Db)
      → get key db ≡ none
      → revoke_lease_key key db ≡ (Answer.answer tt, db)
  unfolding revoke_lease_key
  revoke_lease_key-absent key db e = rw (e, revoke_lease_key) refl

  pub revoke_lease_key-present :
      (key : LeaseKey) (w : LeaseWire) (db : Db)
      → get key db ≡ some (marshal_lease w)
      → revoke_lease_key key db ≡ (Answer.answer tt, unindex key w (del key db))
  unfolding revoke_lease_key
  revoke_lease_key-present key w db e = rw (e, revoke_lease_key, j.unmarshal-marshal w) refl
