-- ===== src/Lease/Register.antt =====
-- What the lease store of server/repo/leases_redis.go promises, without payloads and sets: a register
-- with at most one lease per target, each with the time it has left, and for each owner and lessee the
-- targets that a listing looks at.
use bigfred.Base.{
  ℕ, ◌-◌, Bool, true, false, not, ◌&&◌, ◌||◌, Option, none, some, List, [], ◌∷◌, ltb, maybe,
  is_some, contains, ◌==◌, if◌then◌else◌, ◌≡◌,
}
use bigfred.Lease.Redis.{LeaseKey, IndexKey, Redis, LeaseWire, Json, lease_key_key, index_key_key}
use bigfred.Lease.Store.{
  LeaseRow, StoreError, Answer, is_active, lease_wire, lease_ttl, ttl_milliseconds, lease_from_wire,
  get_lease, create_row, update_row, revoke_lease_key, list_active, list_from_index, find_row,
  owner_key, lessee_key,
}
pub mod Agreement
pub mod Refinement

pub record Register : Type 0 where
  pub lease : LeaseKey → Option (LeaseWire × ℕ)
  pub members : IndexKey → LeaseKey → Bool

abbrev pub put : LeaseKey → LeaseWire → ℕ → Register → Register
put key w ttl m = record {
  lease = λ k. if key == k then some (w, ttl) else m.lease k;
  members = m.members;
}

abbrev pub drop : LeaseKey → Register → Register
drop key m = record { lease = λ k. if key == k then none else m.lease k; members = m.members }

abbrev pub enter : IndexKey → LeaseKey → Register → Register
enter i key m = record { lease = m.lease; members = λ l k. (i == l && key == k) || m.members l k }

abbrev pub leave : IndexKey → LeaseKey → Register → Register
leave i key m = record {
  lease = m.lease;
  members = λ l k. not (i == l && key == k) && m.members l k;
}

-- A lease among those of its owner and of its lessee, and no longer among them.
abbrev pub enter_parties : LeaseRow → Register → Register
enter_parties row m =
    enter (lessee_key row.key.kind row.to_user_id) row.key
      (enter (owner_key row.key.kind row.from_user_id) row.key m)

abbrev pub leave_parties : LeaseKey → LeaseWire → Register → Register
leave_parties key w m =
    leave (lessee_key key.kind w.to_user_id) key (leave (owner_key key.kind w.from_user_id) key m)

-- A call of the store, or time that goes by.
pub data StoreCall : Type 0 where
  create_call : ℕ → LeaseRow → Bool → StoreCall
  update_call : ℕ → LeaseRow → StoreCall
  revoke_call : LeaseKey → StoreCall
  get_call : LeaseKey → StoreCall
  active_call : ℕ → List LeaseKey → StoreCall
  list_call : IndexKey → StoreCall
  pass_call : ℕ → StoreCall

pub data Reply : Type 0 where
  created : Bool → Reply
  changed : Answer (Unit {0}) → Reply
  got : Answer (Option LeaseRow) → Reply
  listed : List LeaseRow → Reply
  listed_by_key : (LeaseKey → Option LeaseRow) → Reply
  silent : Reply

abbrev pub read : LeaseKey → Register → Option LeaseRow
read key m = maybe none (λ p. some (lease_from_wire key p.0)) (m.lease key)

unfoldable pub active_rows : ℕ → List LeaseKey → Register → List LeaseRow
active_rows now [] m = []
active_rows now (key ∷ keys) m =
    let rest = active_rows now keys m in
    maybe rest (λ row. if is_active now row then row ∷ rest else rest) (read key m)

-- A call as the register answers it.
unfoldable pub spec : StoreCall → Register → Reply × Register
spec (StoreCall.create_call now row true) m = (
  Reply.created true,
  enter_parties row (
      put row.key (lease_wire row) (lease_ttl now row)
        (maybe m (λ p. leave_parties row.key p.0 m) (m.lease row.key))),
)
spec (StoreCall.create_call now row false) m =
    if is_some (m.lease row.key) then (Reply.created false, m) else (
      Reply.created true,
      enter_parties row (put row.key (lease_wire row) (ttl_milliseconds (lease_ttl now row)) m),
    )
spec (StoreCall.update_call now row) m =
    if is_some (m.lease row.key)
    then (Reply.changed (Answer.answer tt), put row.key (lease_wire row) (lease_ttl now row) m)
    else (Reply.changed (Answer.failed StoreError.lease_not_found), m)
spec (StoreCall.revoke_call key) m = (
  Reply.changed (Answer.answer tt),
  maybe m (λ p. leave_parties key p.0 (drop key m)) (m.lease key),
)
spec (StoreCall.get_call key) m = (Reply.got (Answer.answer (read key m)), m)
spec (StoreCall.active_call now keys) m = (Reply.listed (active_rows now keys m), m)
-- A listing has the leases of its members, and forgets the members without a lease.
spec (StoreCall.list_call index) m = (
  Reply.listed_by_key (λ k. if m.members index k then read k m else none),
  record {
    lease = m.lease;
    members = λ l k. m.members l k && (not (index == l) || is_some (m.lease k));
  },
)
spec (StoreCall.pass_call d) m = (
  Reply.silent,
  record {
    lease = λ k. maybe none (λ p. if ltb d p.1 then some (p.0, p.1 - d) else none) (m.lease k);
    members = m.members;
  },
)

unfoldable pub spec_run : List StoreCall → Register → List Reply × Register
spec_run [] m = ([], m)
spec_run (c ∷ cs) m =
    let (reply, m') = spec c m in let (replies, last) = spec_run cs m' in (reply ∷ replies, last)

module _ (r : Redis) (j : Json r.Payload) where
  open r use {Db, get, pttl, pass, smembers}

  -- The same call on Redis. A set has no order, so a listing is taken as the row that it has for each
  -- key.
  unfoldable pub exec : StoreCall → Db → Reply × Db
  exec (StoreCall.create_call now row overwrite) db =
      let (b, db') = create_row r j now row overwrite db in (Reply.created b, db')
  exec (StoreCall.update_call now row) db =
      let (a, db') = update_row r j now row db in (Reply.changed a, db')
  exec (StoreCall.revoke_call key) db =
      let (a, db') = revoke_lease_key r j key db in (Reply.changed a, db')
  exec (StoreCall.get_call key) db = (Reply.got (get_lease r j key db), db)
  exec (StoreCall.active_call now keys) db = (Reply.listed (list_active r j now keys db), db)
  exec (StoreCall.list_call index) db =
      let (rows, db') = list_from_index r j index db in
      (Reply.listed_by_key (λ k. find_row k rows), db')
  exec (StoreCall.pass_call d) db = (Reply.silent, pass d db)

  unfoldable pub exec_run : List StoreCall → Db → List Reply × Db
  exec_run [] db = ([], db)
  exec_run (c ∷ cs) db =
      let (reply, db') = exec c db in
      let (replies, last) = exec_run cs db' in (reply ∷ replies, last)

  -- The register is what the lease keys hold, encoded, and what the sets have.
  abbrev pub Agrees : Db → Register → Type 0
  Agrees db m =
      (k : LeaseKey)
      → (get k db ≡ maybe none (λ p. some (j.marshal_lease p.0)) (m.lease k))
        × (pttl k db ≡ maybe 0 (λ p. p.1) (m.lease k))
        × ((l : IndexKey) → contains k (smembers l db) ≡ m.members l k)
