-- ===== src/Lease/Redis.antt =====
-- The keys of contract/lease.go, and what server/repo/leases_redis.go uses of Redis and of JSON. Redis
-- is a server outside the repository: its commands are the fields of an interface, with their
-- documented behaviour as laws. Times are milliseconds, and a command is one atomic step.
use bigfred.Base.{
  ℕ, ◌-◌, ◌≡◌, ◌↔◌, Bool, true, false, not, ◌&&◌, ◌||◌, String, Option, none, some, List, ltb,
  contains, Key, ◌==◌, nat_key, string_key, if◌then◌else◌, arith,
}
use text.Mathlib.TextEquality.{eq_iff}

-- The key of a lease: VehicleLeaseKey and TrainLeaseKey, told apart by the kind of the target.
pub record LeaseKey : Type 0 where
  pub kind : String
  pub target_id : String

-- An index of the lease keys: by the user that gives, or the user that receives.
pub data Party : Type 0 where
  by_owner by_lessee : Party

pub record IndexKey : Type 0 where
  pub party : Party
  pub kind : String
  pub user_id : ℕ

abbrev pub same_party : Party → Party → Bool
same_party Party.by_owner Party.by_owner = true
same_party Party.by_lessee Party.by_lessee = true
same_party p q = false

same_party_iff : (p q : Party) → (same_party p q ≡ true) ↔ (p ≡ q)
same_party_iff Party.by_owner Party.by_owner = ground arith
same_party_iff Party.by_owner Party.by_lessee = ground arith
same_party_iff Party.by_lessee Party.by_owner = ground arith
same_party_iff Party.by_lessee Party.by_lessee = ground arith

abbrev pub same_lease_key : LeaseKey → LeaseKey → Bool
same_lease_key j k = j.kind == k.kind && j.target_id == k.target_id

abbrev pub same_index_key : IndexKey → IndexKey → Bool
same_index_key i j = same_party i.party j.party && i.kind == j.kind && i.user_id == j.user_id

pub same_lease_key_iff : (j k : LeaseKey) → (same_lease_key j k ≡ true) ↔ (j ≡ k)
same_lease_key_iff j k = ground (arith, eq_iff j.kind k.kind, eq_iff j.target_id k.target_id)

pub same_index_key_iff : (i j : IndexKey) → (same_index_key i j ≡ true) ↔ (i ≡ j)
same_index_key_iff i j = ground (arith, same_party_iff i.party j.party, eq_iff i.kind j.kind)

instance abbrev pub lease_key_key : Key LeaseKey
lease_key_key = record { same_iff = same_lease_key_iff; same = same_lease_key }

instance abbrev pub index_key_key : Key IndexKey
index_key_key = record { same_iff = same_index_key_iff; same = same_index_key }

-- The database: strings under lease keys, each with a time to live (0 where there is
-- no string), and sets of lease keys.
pub record Redis : Type 1 where
  pub Db : Type 0
  -- the values: byte strings
  pub Payload : Type 0
  pub get : LeaseKey → Db → Option Payload
  pub pttl : LeaseKey → Db → ℕ
  pub set : LeaseKey → Payload → ℕ → Db → Db
  pub del : LeaseKey → Db → Db
  pub sadd : IndexKey → LeaseKey → Db → Db
  pub srem : IndexKey → LeaseKey → Db → Db
  pub smembers : IndexKey → Db → List LeaseKey
  -- time goes by, and keys whose time to live is over are gone
  pub pass : ℕ → Db → Db
  pub get-set :
      (j k : LeaseKey) (raw : Payload) (ttl : ℕ) (db : Db)
      → get j (set k raw ttl db) ≡ (if k == j then some raw else get j db)
  pub pttl-set :
      (j k : LeaseKey) (raw : Payload) (ttl : ℕ) (db : Db)
      → pttl j (set k raw ttl db) ≡ (if k == j then ttl else pttl j db)
  pub get-del : (j k : LeaseKey) (db : Db) → get j (del k db) ≡ (if k == j then none else get j db)
  pub pttl-del : (j k : LeaseKey) (db : Db) → pttl j (del k db) ≡ (if k == j then 0 else pttl j db)
  pub get-sadd :
      (j : LeaseKey) (i : IndexKey) (k : LeaseKey) (db : Db) → get j (sadd i k db) ≡ get j db
  pub pttl-sadd :
      (j : LeaseKey) (i : IndexKey) (k : LeaseKey) (db : Db) → pttl j (sadd i k db) ≡ pttl j db
  pub get-srem :
      (j : LeaseKey) (i : IndexKey) (k : LeaseKey) (db : Db) → get j (srem i k db) ≡ get j db
  pub pttl-srem :
      (j : LeaseKey) (i : IndexKey) (k : LeaseKey) (db : Db) → pttl j (srem i k db) ≡ pttl j db
  pub smembers-sadd :
      (l : IndexKey) (j : LeaseKey) (i : IndexKey) (k : LeaseKey) (db : Db)
      → contains j (smembers l (sadd i k db)) ≡ (i == l && k == j) || contains j (smembers l db)
  pub smembers-srem :
      (l : IndexKey) (j : LeaseKey) (i : IndexKey) (k : LeaseKey) (db : Db)
      → contains j (smembers l (srem i k db)) ≡ not (i == l && k == j) && contains j (smembers l db)
  pub smembers-set :
      (l : IndexKey) (k : LeaseKey) (raw : Payload) (ttl : ℕ) (db : Db)
      → smembers l (set k raw ttl db) ≡ smembers l db
  pub smembers-del : (l : IndexKey) (k : LeaseKey) (db : Db) → smembers l (del k db) ≡ smembers l db
  pub smembers-pass : (l : IndexKey) (d : ℕ) (db : Db) → smembers l (pass d db) ≡ smembers l db
  pub get-pass :
      (k : LeaseKey) (d : ℕ) (db : Db)
      → get k (pass d db) ≡ (if ltb d (pttl k db) then get k db else none)
  pub pttl-pass : (k : LeaseKey) (d : ℕ) (db : Db) → pttl k (pass d db) ≡ pttl k db - d

-- contract's LeaseWire, the payload of a lease key
pub record LeaseWire : Type 0 where
  pub from_user_id : ℕ
  pub to_user_id : ℕ
  pub speed_limit : ℕ
  pub started_at : ℕ
  pub expires_at : ℕ
  pub source : String

-- encoding/json on a LeaseWire: MarshalLease and UnmarshalLease
pub record Json (Payload : Type 0) : Type 0 where
  pub marshal_lease : LeaseWire → Payload
  pub unmarshal_lease : Payload → Option LeaseWire
  pub unmarshal-marshal : (w : LeaseWire) → unmarshal_lease (marshal_lease w) ≡ some w
