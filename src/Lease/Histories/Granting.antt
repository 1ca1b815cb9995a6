-- ===== src/Lease/Histories/Granting.antt =====
-- That `Lease.Create`, and the changes `UpdateSpeedLimit` and `UpdateDuration`, of server/cmd/lease.go
-- keep the leases sound.
use bigfred.Base.{
  ℕ, ◌+◌, ◌≡◌, ◌<◌, refl, sym, ap, ◌∙◌, true, some, contains, inl, inr, arith, beq_refl, nat_key,
}
use mathlib.Core.Path.{subst}
use bigfred.Lease.Redis.{LeaseKey, Redis, LeaseWire, Json, lease_key_key, index_key_key}
use bigfred.Lease.Store.{LeaseRow, lease_wire, lease_ttl, ttl_milliseconds, owner_key, lessee_key}
use bigfred.Lease.Service.{User, LeaseService, Repositories, build_lease_entry, with_db}
use bigfred.Lease.Commands.{Actor, create, manual_row}
use bigfred.Lease.Commands.Guards.{IsGrantable, create_checks-ok}
use bigfred.Lease.Commands.Outcomes.{IsWritten, stored, granted, create-cases}
use bigfred.Lease.Histories.{IsLeased, IsSoundAt, IsSoundWorld}
use bigfred.Lease.Histories.Frames.{
  schedule_expiry-db, schedule_expiry-other, schedule_expiry-armed, stored-SameDb, sound-one,
}

pub some_inj {ℓ} : {A : Type ℓ} (a b : A) → some a ≡ some b → a ≡ b
some_inj a b h = cc

pub lease_ttl-left :
    (now : ℕ) (row : LeaseRow) → now < row.expires_at → lease_ttl now row + now ≡ row.expires_at
unfolding lease_ttl
lease_ttl-left now row h = ground arith

ttl_milliseconds-left :
    (now : ℕ) (row : LeaseRow)
    → now < row.expires_at
    → ttl_milliseconds (lease_ttl now row) + now ≡ row.expires_at
unfolding ttl_milliseconds
ttl_milliseconds-left now row h = ground (arith, lease_ttl-left now row h)

module _ (r : Redis) (j : Json r.Payload) where
  open r use {Db, get, pttl, set, smembers}

  pub stored-get :
      (row : LeaseRow) (ttl : ℕ) (db : Db)
      → get row.key (stored r j row ttl db) ≡ some (j.marshal_lease (lease_wire row))
  stored-get row ttl db =
      rw
        (
          r.get-sadd row.key _ row.key _,
          r.get-sadd row.key _ row.key _,
          r.get-set row.key row.key _ (ttl_milliseconds ttl) db,
          beq_refl row.key,
        )
        refl

  stored-pttl :
      (row : LeaseRow) (ttl : ℕ) (db : Db)
      → pttl row.key (stored r j row ttl db) ≡ ttl_milliseconds ttl
  stored-pttl row ttl db =
      rw
        (
          r.pttl-sadd row.key _ row.key _,
          r.pttl-sadd row.key _ row.key _,
          r.pttl-set row.key row.key _ (ttl_milliseconds ttl) db,
          beq_refl row.key,
        )
        refl

  stored-lessee :
      (row : LeaseRow) (ttl : ℕ) (db : Db)
      → contains row.key (smembers (lessee_key row.key.kind row.to_user_id) (stored r j row ttl db))
        ≡ true
  stored-lessee row ttl db =
      rw
        (
          r.smembers-sadd _ row.key _ row.key _,
          beq_refl (lessee_key row.key.kind row.to_user_id),
          beq_refl row.key,
        )
        refl

  stored-owner :
      (row : LeaseRow) (ttl : ℕ) (db : Db)
      → contains row.key
          (smembers (owner_key row.key.kind row.from_user_id) (stored r j row ttl db))
        ≡ true
  stored-owner row ttl db =
      rw
        (
          r.smembers-sadd _ row.key _ row.key _,
          r.smembers-sadd _ row.key _ row.key _,
          beq_refl (owner_key row.key.kind row.from_user_id),
          beq_refl row.key,
        )
        refl

  pub sound-IsWritten :
      (now : ℕ) (s : LeaseService Db) (key : LeaseKey)
      → IsSoundAt r j now s key
      → IsWritten r j key s.db
  sound-IsWritten now s key h raw e = let (w, m, l) = h raw e in (w, m)

  pub sound-IsLeased :
      (now : ℕ) (s : LeaseService Db) (key : LeaseKey) (w : LeaseWire)
      → IsSoundAt r j now s key
      → get key s.db ≡ some (j.marshal_lease w)
      → IsLeased r j now s key w
  sound-IsLeased now s key w h e =
      let (w', m, l) = h (j.marshal_lease w) e in
      let same : some w ≡ some w' =
        sym (j.unmarshal-marshal w) ∙ (ap j.unmarshal_lease m ∙ j.unmarshal-marshal w') in
      subst (IsLeased r j now s key) (some_inj w' w (sym same)) l

  -- A new lease for a grant that the guards let through.
  granted_sound :
      (repos : Repositories) (now layout : ℕ) (actor : Actor) (key : LeaseKey)
      (to limit duration : ℕ) (owner : User) (s : LeaseService Db)
      → IsGrantable actor key to limit duration owner
      → IsSoundAt r j now (granted r j repos now layout actor key to limit duration owner s).1 key
  unfolding lease_wire build_lease_entry
  granted_sound repos now layout actor key to limit duration owner s g raw e =
      let row = manual_row r j repos now key owner.id to limit duration in
      let entry = build_lease_entry repos row in
      let db = stored r j row (lease_ttl now row) s.db in
      let same_db = schedule_expiry-db now key (now + duration) entry (with_db db s) in
      let at_db : get key db ≡ some raw = rw same_db at e in
      let longer : now < now + duration = ground (arith, g.duration_ok) in
      (
        lease_wire row,
        some_inj _ _ (sym at_db ∙ stored-get row (lease_ttl now row) s.db),
        record {
          timer = record { entry = entry; captured = entry; due = now + duration; running = true };
          kind = g.kind;
          in_force = longer;
          ttl =
              rw (same_db, stored-pttl row (lease_ttl now row) s.db)
                (ttl_milliseconds-left now row longer);
          limit_le = ground (arith, g.limit_le);
          parties = λ p. ground (arith, g.other, p);
          expiry_le = ground (arith, g.duration_ok);
          owner_indexed = rw same_db (stored-owner row _ s.db);
          lessee_indexed = rw same_db (stored-lessee row _ s.db);
          armed = schedule_expiry-armed now key (now + duration) entry (with_db db s) longer;
          running = refl;
          due = refl;
          captured_from = refl;
          captured_to = refl;
        },
      )

  pub create-IsSoundWorld :
      (repos : Repositories) (now layout : ℕ) (actor : Actor) (key : LeaseKey)
      (to limit duration : ℕ) (s : LeaseService Db)
      → IsSoundWorld r j (now, s)
      → IsSoundWorld r j (now, (create r j repos now layout actor key to limit duration s).1)
  create-IsSoundWorld repos now layout actor key to limit duration s h i =
      elim (create-cases r j repos now layout actor key to limit duration s) [
        | inl (e, q) ↦ rw q (h i)
        | inr (owner, c, a, q) ↦
            let row = manual_row r j repos now key owner.id to limit duration in
            let entry = build_lease_entry repos row in
            let new = with_db (stored r j row (lease_ttl now row) s.db) s in
            let ok =
              create_checks-ok r j repos now layout actor key to limit duration s owner true c in
            rw q (
              sound-one r j now key s
                (granted r j repos now layout actor key to limit duration owner s).1 h
                (λ k p. (
                  rw (schedule_expiry-db now key (now + duration) entry new)
                      (stored-SameDb r j k row _ s.db p),
                  schedule_expiry-other now key (now + duration) entry new k p,
                ))
                (granted_sound repos now layout actor key to limit duration owner s ok.0) i)
      ]
