-- ===== src/Lease/Commands/Outcomes.antt =====
-- How the calls of server/cmd/lease.go can end, when what Redis holds under the key was written by
-- MarshalLease.
use bigfred.Base.{ℕ, ◌+◌, ◌≡◌, refl, true, false, none, some, ◌⊎◌, inl, inr, Option-cases}
use bigfred.Lease.Redis.{LeaseKey, Redis, LeaseWire, Json}
use bigfred.Lease.Store.{
  LeaseRow, Answer, lease_from_wire, from_wire, get_lease, lease_wire, lease_ttl, ttl_milliseconds,
  create_row, create_lease, lease_create_nx, owner_key, lessee_key, update_row, update_lease_key,
}
use bigfred.Lease.Service.{
  LeaseEntry, User, Repositories, ServiceError, Result, EventType, build_lease_entry, with_db,
  schedule_expiry,
}
use bigfred.Lease.Commands.{Actor, Service, create_checks, manual_row, announce, create}
use bigfred.Lease.Commands.Guards.{create_checks-ok}

-- The two ways a checked step ends.
pub Result-cases {ℓ} :
    {A : Type ℓ} (m : Result A)
    → ((e : ServiceError) × (m ≡ Result.err e)) ⊎ ((a : A) × (m ≡ Result.ok a))
Result-cases (Result.ok a) = inr (a, refl)
Result-cases (Result.err e) = inl (e, refl)

module _ (r : Redis) (j : Json r.Payload) where
  abbrev pub IsWritten : LeaseKey → r.Db → Type 0
  IsWritten key db =
      (raw : r.Payload) → r.get key db ≡ some raw → (w : LeaseWire) × (raw ≡ j.marshal_lease w)

  -- The database after a row was stored under a new key.
  abbrev pub stored : LeaseRow → ℕ → r.Db → r.Db
  stored row ttl db = r.sadd (lessee_key row.key.kind row.to_user_id) row.key (
      r.sadd (owner_key row.key.kind row.from_user_id) row.key
        (r.set row.key (j.marshal_lease (lease_wire row)) (ttl_milliseconds ttl) db))

  pub create_row-new :
      (now : ℕ) (row : LeaseRow) (db : r.Db)
      → r.get row.key db ≡ none
      → create_row r j now row false db ≡ (true, stored row (lease_ttl now row) db)
  unfolding create_row create_lease lease_create_nx
  create_row-new now row db e = rw e refl

  pub create_row-taken :
      (now : ℕ) (row : LeaseRow) (db : r.Db) (raw : r.Payload)
      → r.get row.key db ≡ some raw
      → create_row r j now row false db ≡ (false, db)
  unfolding create_row create_lease lease_create_nx
  create_row-taken now row db raw e = rw e refl

  pub update_row-present :
      (now : ℕ) (row : LeaseRow) (db : r.Db) (raw : r.Payload)
      → r.get row.key db ≡ some raw
      → update_row r j now row db ≡ (
        Answer.answer tt,
        r.set row.key (j.marshal_lease (lease_wire row)) (lease_ttl now row) db,
      )
  unfolding update_row update_lease_key
  update_row-present now row db raw e = rw e refl

  pub get_lease-absent :
      (key : LeaseKey) (db : r.Db) → r.get key db ≡ none → get_lease r j key db ≡ Answer.answer none
  unfolding get_lease
  get_lease-absent key db e = rw (e, get_lease) refl

  pub get_lease-present :
      (key : LeaseKey) (w : LeaseWire) (db : r.Db)
      → r.get key db ≡ some (j.marshal_lease w)
      → get_lease r j key db ≡ Answer.answer (some (lease_from_wire key w))
  unfolding get_lease from_wire
  get_lease-present key w db e = rw (e, get_lease, from_wire, j.unmarshal-marshal w) refl

  module _ (repos : Repositories) (now : ℕ) where
    -- What Create answers and leaves behind for a target that is not leased.
    abbrev pub granted :
        ℕ → Actor → LeaseKey → ℕ → ℕ → ℕ → User → Service r → Result LeaseEntry × Service r
    granted layout actor key to limit duration owner s =
        let row = manual_row r j repos now key owner.id to limit duration in
        let entry = build_lease_entry repos row in
        (
          Result.ok entry,
          announce r j repos now layout actor EventType.lease_created entry (
              schedule_expiry now key (now + duration) entry
                (with_db (stored row (lease_ttl now row) s.db) s)),
        )

    pub create-cases :
        (layout : ℕ) (actor : Actor) (key : LeaseKey) (to limit duration : ℕ) (s : Service r)
        → ((e : ServiceError) × (create r j repos now layout actor key to limit duration s
              ≡ (Result.err e, s)))
          ⊎ ((owner : User) × (create_checks r j repos now layout actor key to limit duration s
                ≡ Result.ok (owner, true))
              × (r.get key s.db ≡ none)
              × (create r j repos now layout actor key to limit duration s
                  ≡ granted layout actor key to limit duration owner s))
    unfolding create
    create-cases layout actor key to limit duration s =
        elim (Result-cases (create_checks r j repos now layout actor key to limit duration s)) [
          | inl (e, q) ↦ inl (e, rw (q, create) refl)
          | inr ((owner, indexed), q) ↦
              let (g, free, on) =
                create_checks-ok r j repos now layout actor key to limit duration s owner indexed
                  q in
              let q' = rw on at q in
              elim (Option-cases (r.get key s.db)) [
                | inl a ↦ inr (
                  owner,
                  q',
                  a,
                  rw
                      (
                        q',
                        create_row-new now (manual_row r j repos now key owner.id to limit duration)
                            s.db a,
                        create,
                      )
                      refl,
                )
                | inr (raw, a) ↦ inl (
                  ServiceError.lease_conflict,
                  rw
                      (
                        q',
                        create_row-taken now
                            (manual_row r j repos now key owner.id to limit duration) s.db raw a,
                        create,
                      )
                      refl,
                )
              ]
        ]
