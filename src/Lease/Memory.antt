-- ===== src/Lease/Memory.antt =====
-- A database in memory that keeps the laws asked of Redis, and payloads that keep those asked of JSON,
-- so that the calls of server/cmd/lease.go can be run.
use bigfred.Base.{
  ℕ, ◌-◌, ◌≡◌, refl, Bool, true, false, not, ◌&&◌, ◌||◌, Option, none, some, List, [], ◌∷◌, keep,
  contains, maybe, ltb, ◌==◌, if◌then◌else◌, arith,
}
use bigfred.Lease.Redis.{LeaseKey, IndexKey, Redis, LeaseWire, Json, lease_key_key, index_key_key}

abbrev pub Strings : Type 0
Strings = LeaseKey → Option (Option LeaseWire × ℕ)

abbrev pub Sets : Type 0
Sets = IndexKey → List LeaseKey

pub record MemoryDb : Type 0 where
  pub strings : Strings
  pub sets : Sets

abbrev pub without : LeaseKey → List LeaseKey → List LeaseKey
without k = keep (λ x. not (k == x))

abbrev pub value : Option (Option LeaseWire × ℕ) → Option (Option LeaseWire)
value = maybe none (λ p. some p.0)

abbrev pub ttl_of : Option (Option LeaseWire × ℕ) → ℕ
ttl_of = maybe 0 (λ p. p.1)

pub ap-if {ℓ κ} :
    {A : Type ℓ} {B : Type κ} (f : A → B) (b : Bool) (x y : A)
    → f (if b then x else y) ≡ (if b then f x else f y)
ap-if f true x y = refl
ap-if f false x y = refl

abbrev pub left : ℕ → Option (Option LeaseWire × ℕ) → Option (Option LeaseWire × ℕ)
left d none = none
left d (some (raw, ttl)) = if ltb d ttl then some (raw, ttl - d) else none

pub contains-without :
    (j k : LeaseKey) (xs : List LeaseKey)
    → contains j (without k xs) ≡ not (k == j) && contains j xs
unfolding contains
contains-without j k [] = ground arith
contains-without j k (x ∷ xs) = ground (
  arith,
  contains-without j k xs,
  lease_key_key.same_iff k x,
  lease_key_key.same_iff x j,
  lease_key_key.same_iff k j,
)

pub contains-sadd :
    (l : IndexKey) (j : LeaseKey) (i : IndexKey) (k : LeaseKey) (s : Sets)
    → contains j (if i == l then k ∷ without k (s l) else s l)
      ≡ (i == l && k == j) || contains j (s l)
unfolding contains
contains-sadd l j i k s = ground (arith, contains-without j k (s l))

pub contains-srem :
    (l : IndexKey) (j : LeaseKey) (i : IndexKey) (k : LeaseKey) (s : Sets)
    → contains j (if i == l then without k (s l) else s l)
      ≡ not (i == l && k == j) && contains j (s l)
contains-srem l j i k s = ground (arith, contains-without j k (s l))

pub value-left :
    (d : ℕ) (o : Option (Option LeaseWire × ℕ))
    → maybe none (λ p. some p.0) (left d o)
      ≡ (if ltb d (maybe 0 (λ p. p.1) o) then maybe none (λ p. some p.0) o else none)
value-left d none = ground arith
value-left d (some (raw, ttl)) = ground arith

pub ttl-left :
    (d : ℕ) (o : Option (Option LeaseWire × ℕ))
    → maybe 0 (λ p. p.1) (left d o) ≡ maybe 0 (λ p. p.1) o - d
ttl-left d none = ground arith
ttl-left d (some (raw, ttl)) = ground arith

abbrev pub memory : Redis
memory = record {
  Db = MemoryDb;
  Payload = Option LeaseWire;
  get = λ k db. value (db.strings k);
  pttl = λ k db. ttl_of (db.strings k);
  set = λ k raw ttl db. record {
    strings = λ i. if k == i then some (raw, ttl) else db.strings i;
    sets = db.sets;
  };
  del = λ k db. record { strings = λ i. if k == i then none else db.strings i; sets = db.sets };
  sadd = λ i k db. record {
    strings = db.strings;
    sets = λ l. if i == l then k ∷ without k (db.sets l) else db.sets l;
  };
  srem = λ i k db. record {
    strings = db.strings;
    sets = λ l. if i == l then without k (db.sets l) else db.sets l;
  };
  smembers = λ i db. db.sets i;
  pass = λ d db. record { strings = λ i. left d (db.strings i); sets = db.sets };
  get-set = λ j k raw ttl db. ap-if value (k == j) (some (raw, ttl)) (db.strings j);
  pttl-set = λ j k raw ttl db. ap-if ttl_of (k == j) (some (raw, ttl)) (db.strings j);
  get-del = λ j k db. ap-if value (k == j) none (db.strings j);
  pttl-del = λ j k db. ap-if ttl_of (k == j) none (db.strings j);
  get-sadd = λ j i k db. refl;
  pttl-sadd = λ j i k db. refl;
  get-srem = λ j i k db. refl;
  pttl-srem = λ j i k db. refl;
  smembers-sadd = λ l j i k db. contains-sadd l j i k db.sets;
  smembers-srem = λ l j i k db. contains-srem l j i k db.sets;
  smembers-set = λ l k raw ttl db. refl;
  smembers-del = λ l k db. refl;
  smembers-pass = λ l d db. refl;
  get-pass = λ k d db. value-left d (db.strings k);
  pttl-pass = λ k d db. ttl-left d (db.strings k);
}

-- A payload that does not decode is `none`.
abbrev pub plain : Json (Option LeaseWire)
plain = record {
  marshal_lease = λ w. some w;
  unmarshal_lease = λ p. p;
  unmarshal-marshal = λ w. refl;
}

abbrev pub empty_db : MemoryDb
empty_db = record { strings = λ i. none; sets = λ l. [] }
