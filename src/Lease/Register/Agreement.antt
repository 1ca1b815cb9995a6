-- ===== src/Lease/Register/Agreement.antt =====
-- What the Redis calls of server/repo/leases_redis.go do to a database that agrees with a register.
use bigfred.Base.{
  ℕ, ◌≡◌, refl, sym, ◌∙◌, Bool, true, false, not, ◌&&◌, none, List, [], ◌∷◌, ◌==◌, inl, inr, arith,
  Bool-cases, Option-cases, beq_eq, contains, is_some, if◌then◌else◌, some,
}
use bigfred.Lease.Redis.{LeaseKey, IndexKey, Redis, LeaseWire, Json, lease_key_key, index_key_key}
use bigfred.Lease.Store.{
  LeaseRow, Answer, from_wire, get_lease, list_active, list_members, unindex, find_row, owner_key,
  lessee_key,
}
use bigfred.Lease.Register.{
  Register, put, drop, enter, leave, enter_parties, leave_parties, StoreCall, read, active_rows,
  spec, Agrees,
}

if_same {ℓ} : {A : Type ℓ} (b : Bool) (a : A) → (if b then a else a) ≡ a
if_same true a = refl
if_same false a = refl

module _ (r : Redis) (j : Json r.Payload) where
  open r use {Db, get, pttl, set, del, sadd, srem, pass}
  open j use {marshal_lease}

  pub set-Agrees :
      (k : LeaseKey) (w : LeaseWire) (ttl : ℕ) (db : Db) (m : Register)
      → Agrees r j db m
      → Agrees r j (set k (marshal_lease w) ttl db) (put k w ttl m)
  set-Agrees k w ttl db m h i = (
    ground (arith, r.get-set i k (marshal_lease w) ttl db, (h i).0),
    ground (arith, r.pttl-set i k (marshal_lease w) ttl db, (h i).1),
    λ l. rw (r.smembers-set l k (marshal_lease w) ttl db) ((h i).2 l),
  )

  pub del-Agrees :
      (k : LeaseKey) (db : Db) (m : Register) → Agrees r j db m → Agrees r j (del k db) (drop k m)
  del-Agrees k db m h i = (
    ground (arith, r.get-del i k db, (h i).0),
    ground (arith, r.pttl-del i k db, (h i).1),
    λ l. rw (r.smembers-del l k db) ((h i).2 l),
  )

  sadd-Agrees :
      (l : IndexKey) (k : LeaseKey) (db : Db) (m : Register)
      → Agrees r j db m
      → Agrees r j (sadd l k db) (enter l k m)
  sadd-Agrees l k db m h i = (
    rw (r.get-sadd i l k db) (h i).0,
    rw (r.pttl-sadd i l k db) (h i).1,
    λ n. rw (r.smembers-sadd n i l k db, (h i).2 n) refl,
  )

  pub entered-Agrees :
      (row : LeaseRow) {db : Db} (m : Register)
      → Agrees r j db m
      → Agrees r j
          (sadd
            (lessee_key row.key.kind row.to_user_id)
            row.key
            (sadd (owner_key row.key.kind row.from_user_id) row.key db))
          (enter_parties row m)
  entered-Agrees row m h = sadd-Agrees _ _ _ _ (sadd-Agrees _ _ _ _ h)

  srem-Agrees :
      (l : IndexKey) (k : LeaseKey) (db : Db) (m : Register)
      → Agrees r j db m
      → Agrees r j (srem l k db) (leave l k m)
  srem-Agrees l k db m h i = (
    rw (r.get-srem i l k db) (h i).0,
    rw (r.pttl-srem i l k db) (h i).1,
    λ n. rw (r.smembers-srem n i l k db, (h i).2 n) refl,
  )

  pub unindex-Agrees :
      (k : LeaseKey) (w : LeaseWire) (db : Db) (m : Register)
      → Agrees r j db m
      → Agrees r j (unindex r j k w db) (leave_parties k w m)
  unindex-Agrees k w db m h = srem-Agrees _ k _ _ (srem-Agrees _ k db m h)

  pub pass-Agrees :
      (d : ℕ) (db : Db) (m : Register)
      → Agrees r j db m
      → Agrees r j (pass d db) (spec (StoreCall.pass_call d) m).1
  unfolding spec
  pass-Agrees d db m h k = (
    ground (arith, r.get-pass k d db, (h k).0, (h k).1),
    ground (arith, r.pttl-pass k d db, (h k).1),
    λ l. rw (r.smembers-pass l d db) ((h k).2 l),
  )

  pub get_lease-read :
      (k : LeaseKey) (db : Db) (m : Register)
      → Agrees r j db m
      → get_lease r j k db ≡ Answer.answer (read k m)
  unfolding get_lease from_wire
  get_lease-read k db m h = elim (Option-cases (m.lease k)) [
    | inl e ↦ rw ((h k).0, e, get_lease) refl
    | inr (p, e) ↦ rw ((h k).0, e, get_lease, from_wire, j.unmarshal-marshal p.0) refl
  ]

  pub list_active-read :
      (now : ℕ) (ks : List LeaseKey) (db : Db) (m : Register)
      → Agrees r j db m
      → list_active r j now ks db ≡ active_rows now ks m
  unfolding list_active active_rows
  list_active-read now [] db m h = refl
  list_active-read now (k ∷ ks) db m h =
      ground (arith, get_lease-read k db m h, list_active-read now ks db m h)

  -- What a listing over some keys has for a key, and what it leaves in the sets.
  pub list_members-read :
      (l : IndexKey) (ks : List LeaseKey) (db : Db) (m : Register) (i : LeaseKey)
      → Agrees r j db m
      → find_row i (list_members r j l ks db).0 ≡ (if contains i ks then read i m else none)
  unfolding list_members from_wire find_row contains
  list_members-read l [] db m i h = refl
  list_members-read l (k ∷ ks) db m i h = elim (Option-cases (m.lease k)) [
    | inl e ↦ elim (Bool-cases (k == i)) [
      | inl p ↦
          let gone : m.lease i ≡ none = rw (sym (beq_eq k i p)) e in
          rw ((h k).0, e, list_members, p, list_members-read l ks db m i h, gone) (if_same _ none)
      | inr p ↦ rw ((h k).0, e, list_members, p) (list_members-read l ks db m i h)
    ]
    | inr (w, e) ↦ elim (Bool-cases (k == i)) [
      | inl p ↦
          let same = beq_eq k i p in
          let here : m.lease i ≡ some w = rw (sym same) e in
          rw ((h k).0, e, list_members, from_wire, j.unmarshal-marshal w.0, find_row, p, here, same)
            refl
      | inr p ↦
          rw ((h k).0, e, list_members, from_wire, j.unmarshal-marshal w.0, find_row, p)
            (list_members-read l ks db m i h)
    ]
  ]

  abbrev pub pruned : IndexKey → List LeaseKey → Register → Register
  pruned l ks m = record {
    lease = m.lease;
    members = λ n k. m.members n k && not (l == n && (contains k ks && not (is_some (m.lease k))));
  }

  pruned_more :
      (l : IndexKey) (k : LeaseKey) (ks : List LeaseKey) (m : Register) (n : IndexKey)
      (i : LeaseKey)
      → m.lease k ≡ none
      → not (l == n && k == i) && (pruned l ks m).members n i ≡ (pruned l (k ∷ ks) m).members n i
  unfolding contains
  pruned_more l k ks m n i e = elim (Bool-cases (k == i)) [
    | inl p ↦ let gone : m.lease i ≡ none = rw (sym (beq_eq k i p)) e in ground (arith, p, gone)
    | inr p ↦ ground (arith, p)
  ]

  pruned_kept :
      (l : IndexKey) (k : LeaseKey) (ks : List LeaseKey) (m : Register) (n : IndexKey)
      (i : LeaseKey)
      → is_some (m.lease k) ≡ true
      → (pruned l ks m).members n i ≡ (pruned l (k ∷ ks) m).members n i
  unfolding contains
  pruned_kept l k ks m n i e = elim (Bool-cases (k == i)) [
    | inl p ↦
        let held : is_some (m.lease i) ≡ true = rw (sym (beq_eq k i p)) e in ground (arith, p, held)
    | inr p ↦ ground (arith, p)
  ]

  pub list_members-Agrees :
      (l : IndexKey) (ks : List LeaseKey) (db : Db) (m : Register)
      → Agrees r j db m
      → Agrees r j (list_members r j l ks db).1 (pruned l ks m)
  unfolding list_members from_wire contains
  list_members-Agrees l [] db m h i = ((h i).0, (h i).1, λ n. ground (arith, (h i).2 n))
  list_members-Agrees l (k ∷ ks) db m h i = elim (Option-cases (m.lease k)) [
    | inl e ↦
        let t = srem-Agrees l k _ _ (list_members-Agrees l ks db m h) i in
        rw ((h k).0, e, list_members) (t.0, t.1, λ n. t.2 n ∙ pruned_more l k ks m n i e)
    | inr (p, e) ↦
        let t = list_members-Agrees l ks db m h i in
        rw ((h k).0, e, list_members, from_wire, j.unmarshal-marshal p.0)
          (t.0, t.1, λ n. t.2 n ∙ pruned_kept l k ks m n i (rw e refl))
  ]
