-- ===== src/Lease/Register/Refinement.antt =====
-- That the Redis calls of server/repo/leases_redis.go answer as the register does.
use bigfred.Base.{
  ℕ, ◌≡◌, refl, ap, ◌∙◌, true, false, not, ◌&&◌, ◌||◌, none, List, [], ◌∷◌, ◌==◌, inl, inr, arith,
  Bool-cases, Option-cases, beq_eq, is_some, if◌then◌else◌,
}
use bigfred.Lease.Redis.{LeaseKey, IndexKey, Redis, Json, lease_key_key, index_key_key}
use bigfred.Lease.Store.{
  LeaseRow, lease_create_nx, create_lease_overwrite, create_lease, create_row, update_lease_key,
  update_row, list_from_index, revoke_lease_key-absent, revoke_lease_key-present,
}
use bigfred.Lease.Register.{
  Register, StoreCall, Reply, read, spec, spec_run, exec, exec_run, Agrees,
}
use bigfred.Lease.Register.Agreement.{
  set-Agrees, del-Agrees, entered-Agrees, unindex-Agrees, pass-Agrees, get_lease-read,
  list_active-read, list_members-read, list_members-Agrees, pruned,
}

module _ (r : Redis) (j : Json r.Payload) where
  open r use {Db}

  -- What a step on the two sides must show.
  abbrev Refines : StoreCall → Db → Register → Type 0
  Refines c db m = ((exec r j c db).0 ≡ (spec c m).0) × Agrees r j (exec r j c db).1 (spec c m).1

  overwrite-Refines :
      (now : ℕ) (row : LeaseRow) (db : Db) (m : Register)
      → Agrees r j db m
      → Refines (StoreCall.create_call now row true) db m
  unfolding exec spec create_row create_lease create_lease_overwrite
  overwrite-Refines now row db m h = elim (Option-cases (m.lease row.key)) [
    | inl e ↦
        rw ((h row.key).0, e, create_lease_overwrite)
          (refl, entered-Agrees r j row _ (set-Agrees r j _ _ _ _ m h))
    | inr (p, e) ↦
        rw ((h row.key).0, e, create_lease_overwrite, j.unmarshal-marshal p.0)
          (
            refl,
            entered-Agrees r j row _ (set-Agrees r j _ _ _ _ _ (unindex-Agrees r j _ p.0 db m h)),
          )
  ]

  create-Refines :
      (now : ℕ) (row : LeaseRow) (db : Db) (m : Register)
      → Agrees r j db m
      → Refines (StoreCall.create_call now row false) db m
  unfolding exec spec create_row create_lease lease_create_nx
  create-Refines now row db m h = elim (Option-cases (m.lease row.key)) [
    | inl e ↦ rw ((h row.key).0, e) (refl, entered-Agrees r j row _ (set-Agrees r j _ _ _ db m h))
    | inr (p, e) ↦ rw ((h row.key).0, e) (refl, h)
  ]

  update-Refines :
      (now : ℕ) (row : LeaseRow) (db : Db) (m : Register)
      → Agrees r j db m
      → Refines (StoreCall.update_call now row) db m
  unfolding exec spec update_row update_lease_key
  update-Refines now row db m h = elim (Option-cases (m.lease row.key)) [
    | inl e ↦ rw ((h row.key).0, e) (refl, h)
    | inr (p, e) ↦ rw ((h row.key).0, e) (refl, set-Agrees r j _ _ _ db m h)
  ]

  revoke-Refines :
      (k : LeaseKey) (db : Db) (m : Register)
      → Agrees r j db m
      → Refines (StoreCall.revoke_call k) db m
  unfolding exec spec
  revoke-Refines k db m h = elim (Option-cases (m.lease k)) [
    | inl e ↦ rw (revoke_lease_key-absent r j k db (rw ((h k).0, e) refl), e) (refl, h)
    | inr (p, e) ↦
        rw (revoke_lease_key-present r j k p.0 db (rw ((h k).0, e) refl), e)
          (refl, unindex-Agrees r j k p.0 _ _ (del-Agrees r j k db m h))
  ]

  -- Over all members of a set, the listing has what the register says.
  list-Refines :
      (l : IndexKey) (db : Db) (m : Register)
      → Agrees r j db m
      → Refines (StoreCall.list_call l) db m
  unfolding exec spec list_from_index
  list-Refines l db m h = (
    ap Reply.listed_by_key (λ t k.
        (list_members-read r j l (r.smembers l db) db m k h
            ∙ ap (λ b. if b then read k m else none) ((h k).2 l))
          t),
    λ k.
        let t = list_members-Agrees r j l (r.smembers l db) db m h k in
        (t.0, t.1, λ n. t.2 n ∙ pruned_all n k),
  )
    where
      pruned_all :
          (n : IndexKey) (k : LeaseKey)
          → (pruned r j l (r.smembers l db) m).members n k
            ≡ m.members n k && (not (l == n) || is_some (m.lease k))
      pruned_all n k = elim (Bool-cases (l == n)) [
        | inl p ↦ let same = beq_eq l n p in ground (arith, p, same, (h k).2 l, (h k).2 n)
        | inr p ↦ ground (arith, p)
      ]

  exec-Refines : (c : StoreCall) (db : Db) (m : Register) → Agrees r j db m → Refines c db m
  unfolding exec spec
  exec-Refines (StoreCall.create_call now row true) db m h = overwrite-Refines now row db m h
  exec-Refines (StoreCall.create_call now row false) db m h = create-Refines now row db m h
  exec-Refines (StoreCall.update_call now row) db m h = update-Refines now row db m h
  exec-Refines (StoreCall.revoke_call k) db m h = revoke-Refines k db m h
  exec-Refines (StoreCall.get_call k) db m h = (ap Reply.got (get_lease-read r j k db m h), h)
  exec-Refines (StoreCall.active_call now ks) db m h =
      (ap Reply.listed (list_active-read r j now ks db m h), h)
  exec-Refines (StoreCall.list_call l) db m h = list-Refines l db m h
  exec-Refines (StoreCall.pass_call d) db m h = (refl, pass-Agrees r j d db m h)

  -- The lease store on Redis refines the register: from a database that agrees with a register, any
  -- history of calls, and of time that goes by between them, gets the replies that the register
  -- gives, a listing by the row that it has for each key, and ends in a database that agrees with the
  -- register it ends in.
  pub exec_run-refines :
      (cs : List StoreCall) (db : Db) (m : Register)
      → Agrees r j db m
      → ((exec_run r j cs db).0 ≡ (spec_run cs m).0)
        × Agrees r j (exec_run r j cs db).1 (spec_run cs m).1
  unfolding exec_run spec_run
  exec_run-refines [] db m h = (refl, h)
  exec_run-refines (c ∷ cs) db m h =
      let step = exec-Refines c db m h in
      let rest = exec_run-refines cs (exec r j c db).1 (spec c m).1 step.1 in
      (rw (step.0, rest.0) refl, rest.1)
