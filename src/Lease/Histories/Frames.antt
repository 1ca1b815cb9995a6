-- ===== src/Lease/Histories/Frames.antt =====
-- What the calls of server/cmd/lease.go leave alone: the leases of the other targets.
use bigfred.Base.{
  ℕ, ◌≡◌, ◌<◌, refl, sym, ◌∙◌, true, false, some, List, [], ◌∷◌, Map, lookup, insert, lookup-insert,
  lookup-erase, lookup-insert_self, contains, leb, ◌==◌, inl, inr, arith, Bool-cases, Option-cases,
  beq_eq,
}
use mathlib.Core.Path.{subst}
use bigfred.Lease.Redis.{LeaseKey, IndexKey, Redis, LeaseWire, Json, lease_key_key, index_key_key}
use bigfred.Lease.Store.{LeaseRow, lease_wire, ttl_milliseconds, list_members, unindex, from_wire}
use bigfred.Lease.Service.{
  LeaseEntry, LeaseTimer, LeaseService, schedule_expiry, cancel_timer, refresh_timer_entry,
}
use bigfred.Lease.Commands.Outcomes.{stored}
use bigfred.Lease.Histories.{IsSoundAt, IsSoundWorld}

pub insert-other :
    (key i : LeaseKey) (t : LeaseTimer) (timers : Map LeaseKey LeaseTimer)
    → (key == i) ≡ false
    → lookup i (insert key t timers) ≡ lookup i timers
insert-other key i t timers h = rw (lookup-insert i key t timers, h) refl

module _ {D : Type 0} (now : ℕ) (key : LeaseKey) (expires : ℕ) (entry : LeaseEntry)
    (s : LeaseService D) where
  pub schedule_expiry-db : (schedule_expiry now key expires entry s).db ≡ s.db
  unfolding schedule_expiry
  schedule_expiry-db = ground arith

  pub schedule_expiry-other :
      (i : LeaseKey)
      → (key == i) ≡ false
      → lookup i (schedule_expiry now key expires entry s).timers ≡ lookup i s.timers
  unfolding schedule_expiry
  schedule_expiry-other i h = elim (Option-cases (lookup key s.timers)) [
    | inl e ↦ elim (Bool-cases (leb expires now)) [
      | inl c ↦ rw (e, c, schedule_expiry) refl
      | inr c ↦ rw (e, c, schedule_expiry) (insert-other key i _ _ h)
    ]
    | inr (t, e) ↦ elim (Bool-cases (leb expires now)) [
      | inl c ↦ rw (e, c, schedule_expiry) (insert-other key i _ _ h)
      | inr c ↦ rw (e, c, schedule_expiry) (insert-other key i _ _ h ∙ insert-other key i _ _ h)
    ]
  ]

  pub schedule_expiry-armed :
      now < expires
      → lookup key (schedule_expiry now key expires entry s).timers
        ≡ some (record { entry = entry; captured = entry; due = expires; running = true })
  unfolding schedule_expiry
  schedule_expiry-armed h =
      let c : leb expires now ≡ false = ground arith in
      rw (c, schedule_expiry) (lookup-insert_self key _ _)

module _ {D : Type 0} (key : LeaseKey) (s : LeaseService D) where
  pub cancel_timer-other :
      (i : LeaseKey) → (key == i) ≡ false → lookup i (cancel_timer key s).timers ≡ lookup i s.timers
  unfolding cancel_timer
  cancel_timer-other i h = rw (lookup-erase i key s.timers, h) refl

module _ {D : Type 0} (key : LeaseKey) (entry : LeaseEntry) (s : LeaseService D) where
  pub refresh_timer_entry-db : (refresh_timer_entry key entry s).db ≡ s.db
  unfolding refresh_timer_entry
  refresh_timer_entry-db = ground arith

  pub refresh_timer_entry-other :
      (i : LeaseKey)
      → (key == i) ≡ false
      → lookup i (refresh_timer_entry key entry s).timers ≡ lookup i s.timers
  unfolding refresh_timer_entry
  refresh_timer_entry-other i h = elim (Option-cases (lookup key s.timers)) [
    | inl e ↦ rw (e, refresh_timer_entry) refl
    | inr (t, e) ↦ rw (e, refresh_timer_entry) (insert-other key i _ _ h)
  ]

  pub refresh_timer_entry_self :
      (t : LeaseTimer)
      → lookup key s.timers ≡ some t
      → lookup key (refresh_timer_entry key entry s).timers
        ≡ some (record { entry = entry; captured = t.captured; due = t.due; running = t.running })
  unfolding refresh_timer_entry
  refresh_timer_entry_self t h = rw h (lookup-insert_self key _ s.timers)

module _ (r : Redis) (j : Json r.Payload) where
  open r use {Db, get, pttl, set, del, sadd, srem, smembers}

  -- The lease of a target, its time to live and its place in the indexes are the same.
  abbrev pub SameDb : LeaseKey → Db → Db → Type 0
  SameDb i db db' =
      (get i db' ≡ get i db)
      × (pttl i db' ≡ pttl i db)
      × ((l : IndexKey) → contains i (smembers l db') ≡ contains i (smembers l db))

  pub SameDb-trans : (i : LeaseKey) (a b c : Db) → SameDb i a b → SameDb i b c → SameDb i a c
  SameDb-trans i a b c p q = (q.0 ∙ p.0, q.1 ∙ p.1, λ l. q.2 l ∙ p.2 l)

  pub set-SameDb :
      (i k : LeaseKey) (raw : r.Payload) (ttl : ℕ) (db : Db)
      → (k == i) ≡ false
      → SameDb i db (set k raw ttl db)
  set-SameDb i k raw ttl db h = (
    rw (r.get-set i k raw ttl db, h) refl,
    rw (r.pttl-set i k raw ttl db, h) refl,
    λ l. rw (r.smembers-set l k raw ttl db) refl,
  )

  del-SameDb : (i k : LeaseKey) (db : Db) → (k == i) ≡ false → SameDb i db (del k db)
  del-SameDb i k db h = (
    rw (r.get-del i k db, h) refl,
    rw (r.pttl-del i k db, h) refl,
    λ l. rw (r.smembers-del l k db) refl,
  )

  sadd-SameDb :
      (i k : LeaseKey) (m : IndexKey) (db : Db) → (k == i) ≡ false → SameDb i db (sadd m k db)
  sadd-SameDb i k m db h = (
    r.get-sadd i m k db,
    r.pttl-sadd i m k db,
    λ l. ground (arith, r.smembers-sadd l i m k db, h),
  )

  srem-SameDb :
      (i k : LeaseKey) (m : IndexKey) (db : Db) → (k == i) ≡ false → SameDb i db (srem m k db)
  srem-SameDb i k m db h = (
    r.get-srem i m k db,
    r.pttl-srem i m k db,
    λ l. ground (arith, r.smembers-srem l i m k db, h),
  )

  pub stored-SameDb :
      (i : LeaseKey) (row : LeaseRow) (ttl : ℕ) (db : Db)
      → (row.key == i) ≡ false
      → SameDb i db (stored r j row ttl db)
  stored-SameDb i row ttl db h =
      SameDb-trans i _ _ _
        (set-SameDb i row.key (j.marshal_lease (lease_wire row)) (ttl_milliseconds ttl) db h)
        (SameDb-trans i _ _ _ (sadd-SameDb i row.key _ _ h) (sadd-SameDb i row.key _ _ h))

  pub revoked-SameDb :
      (i k : LeaseKey) (w : LeaseWire) (db : Db)
      → (k == i) ≡ false
      → SameDb i db (unindex r j k w (del k db))
  revoked-SameDb i k w db h =
      SameDb-trans i _ _ _ (del-SameDb i k db h)
        (SameDb-trans i _ _ _ (srem-SameDb i k _ _ h) (srem-SameDb i k _ _ h))

  -- A listing prunes the index of keys that are gone only.
  pub list_members-SameDb :
      (i : LeaseKey) (raw : r.Payload) (l : IndexKey) (ks : List LeaseKey) (db : Db)
      → get i db ≡ some raw
      → SameDb i db (list_members r j l ks db).1
  unfolding list_members from_wire
  list_members-SameDb i raw l [] db e = (refl, refl, λ m. refl)
  list_members-SameDb i raw l (k ∷ ks) db e =
      let rest = list_members-SameDb i raw l ks db e in
      elim (Option-cases (get k db)) [
        | inl a ↦ elim (Bool-cases (k == i)) [
          | inl p ↦ let same = beq_eq k i p in cc
          | inr p ↦
              rw (a, list_members)
                (SameDb-trans i _ _ _ rest (srem-SameDb i k l (list_members r j l ks db).1 p))
        ]
        | inr (raw', a) ↦ elim (Option-cases (j.unmarshal_lease raw')) [
          | inl u ↦ rw (a, list_members, from_wire, u) rest
          | inr (w, u) ↦ rw (a, list_members, from_wire, u) rest
        ]
      ]

  pub sound-frame :
      (now : ℕ) (s s' : LeaseService Db) (i : LeaseKey)
      → IsSoundAt r j now s i
      → SameDb i s.db s'.db
      → lookup i s'.timers ≡ lookup i s.timers
      → IsSoundAt r j now s' i
  sound-frame now s s' i h d t raw e =
      let (w, m, leased) = h raw (sym d.0 ∙ e) in
      (
        w,
        m,
        record {
          timer = leased.timer;
          kind = leased.kind;
          in_force = leased.in_force;
          ttl = rw d.1 leased.ttl;
          limit_le = leased.limit_le;
          parties = leased.parties;
          expiry_le = leased.expiry_le;
          owner_indexed = d.2 _ ∙ leased.owner_indexed;
          lessee_indexed = d.2 _ ∙ leased.lessee_indexed;
          armed = t ∙ leased.armed;
          running = leased.running;
          due = leased.due;
          captured_from = leased.captured_from;
          captured_to = leased.captured_to;
        },
      )

  -- A call on one target: the other leases are left alone, and this one is seen to be sound.
  pub sound-one :
      (now : ℕ) (key : LeaseKey) (s s' : LeaseService Db)
      → IsSoundWorld r j (now, s)
      → ((i : LeaseKey)
          → (key == i) ≡ false
          → SameDb i s.db s'.db × (lookup i s'.timers ≡ lookup i s.timers))
      → IsSoundAt r j now s' key
      → IsSoundWorld r j (now, s')
  sound-one now key s s' h others here i = elim (Bool-cases (key == i)) [
    | inl p ↦ subst (IsSoundAt r j now s') (beq_eq key i p) here
    | inr p ↦ let (d, t) = others i p in sound-frame now s s' i (h i) d t
  ]
