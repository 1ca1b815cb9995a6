-- ===== src/Lease/Histories/Changing.antt =====
-- That `UpdateSpeedLimit` and `UpdateDuration` of server/cmd/lease.go keep the leases sound.
use bigfred.Base.{
  ℕ, ◌+◌, ◌≡◌, ◌<◌, ◌≤◌, refl, sym, ◌∙◌, true, false, some, [], ◌∷◌, lookup, ltb, inl, inr, arith,
  Bool-cases, beq_refl, nat_key,
}
use bigfred.Lease.Redis.{LeaseKey, IndexKey, Redis, LeaseWire, Json, lease_key_key, index_key_key}
use bigfred.Lease.Store.{LeaseRow, lease_wire, lease_ttl, owner_key, lessee_key, lease_from_wire}
use bigfred.Lease.Service.{
  LeaseTimer, LeaseService, Repositories, build_lease_entry, with_db, emit_all, LeaseEffect,
}
use bigfred.Lease.Commands.{
  Actor, lease_max_duration, bad_duration, update_speed_limit, update_duration, with_limit,
  with_expiry, limit_finish, duration_finish,
}
use bigfred.Lease.Commands.Loaded.{changed, update_loaded-cases}
use bigfred.Lease.Histories.{IsLeased, IsSoundAt, IsSoundWorld}
use bigfred.Lease.Histories.Frames.{
  schedule_expiry-db, schedule_expiry-other, schedule_expiry-armed, refresh_timer_entry-db,
  refresh_timer_entry-other, refresh_timer_entry_self, set-SameDb, sound-one,
}
use bigfred.Lease.Histories.Granting.{lease_ttl-left, some_inj, sound-IsWritten, sound-IsLeased}

captured_row :
    (repos : Repositories) (row : LeaseRow)
    → ((build_lease_entry repos row).from_user_id ≡ row.from_user_id)
      × ((build_lease_entry repos row).to_user_id ≡ row.to_user_id)
unfolding build_lease_entry
captured_row repos row = (refl, refl)

module _ (r : Redis) (j : Json r.Payload) where
  open r use {Db, get, pttl, set, smembers}

  -- A row that took the place of a lease of the same parties.
  changed_sound :
      (now : ℕ) (s s' : LeaseService Db) (row : LeaseRow) (w : LeaseWire) (t : LeaseTimer)
      → IsLeased r j now s row.key w
      → s'.db ≡ set row.key (j.marshal_lease (lease_wire row)) (lease_ttl now row) s.db
      → row.from_user_id ≡ w.from_user_id
      → row.to_user_id ≡ w.to_user_id
      → now < row.expires_at
      → row.expires_at ≤ now + lease_max_duration
      → row.speed_limit ≤ 100
      → lookup row.key s'.timers ≡ some t
      → t.running ≡ true
      → t.due ≡ row.expires_at
      → t.captured.from_user_id ≡ row.from_user_id
      → t.captured.to_user_id ≡ row.to_user_id
      → IsSoundAt r j now s' row.key
  unfolding lease_wire
  changed_sound now s s' row w t l d from to future max limit armed running due cf ct raw e =
      let at_db = rw d at e in
      let raw_same =
        sym at_db
        ∙ rw
            (
              r.get-set row.key row.key (j.marshal_lease (lease_wire row)) (lease_ttl now row) s.db,
              beq_refl row.key,
            )
            refl in
      let ttl_same : pttl row.key s'.db ≡ lease_ttl now row =
        rw
          (
            d,
            r.pttl-set row.key row.key (j.marshal_lease (lease_wire row)) (lease_ttl now row) s.db,
            beq_refl row.key,
          )
          refl in
      let index_same : (m : IndexKey) → smembers m s'.db ≡ smembers m s.db = λ m.
        rw (d, r.smembers-set m row.key (j.marshal_lease (lease_wire row)) (lease_ttl now row) s.db)
          refl in
      (
        lease_wire row,
        some_inj _ _ raw_same,
        record {
          timer = t;
          kind = l.kind;
          in_force = future;
          ttl = rw ttl_same (lease_ttl-left now row future);
          limit_le = limit;
          parties = λ p. l.parties (sym from ∙ (p ∙ to));
          expiry_le = max;
          owner_indexed =
              rw (from, index_same (owner_key row.key.kind w.from_user_id)) l.owner_indexed;
          lessee_indexed =
              rw (to, index_same (lessee_key row.key.kind w.to_user_id)) l.lessee_indexed;
          armed = armed;
          running = running;
          due = due;
          captured_from = cf;
          captured_to = ct;
        },
      )

  limit_sound :
      (repos : Repositories) (now layout : ℕ) (actor : Actor) (key : LeaseKey) (limit : ℕ)
      (s s' : LeaseService Db) (w : LeaseWire)
      → IsSoundWorld r j (now, s)
      → ltb 100 limit ≡ false
      → get key s.db ≡ some (j.marshal_lease w)
      → s'
        ≡ (changed r j repos now
            (with_limit r j repos now limit)
            (limit_finish r j repos now layout actor key)
            key
            w
            s).1
      → IsSoundWorld r j (now, s')
  limit_sound repos now layout actor key limit s s' w h c m q =
      let row = with_limit r j repos now limit (lease_from_wire key w) in
      let entry = build_lease_entry repos row in
      let new =
        emit_all (LeaseEffect.sync_layout_roster layout ∷ [])
          (with_db (set key (j.marshal_lease (lease_wire row)) (lease_ttl now row) s.db) s) in
      let l = sound-IsLeased r j now s key w (h key) m in
      let t = l.timer in
      let same_db = refresh_timer_entry-db key entry new in
      rw q (
        sound-one r j now key s _ h
          (λ i p. (
            rw same_db (set-SameDb r j i key _ _ s.db p),
            refresh_timer_entry-other key entry new i p,
          ))
          (changed_sound now s _ row w
            (record { entry = entry; captured = t.captured; due = t.due; running = t.running }) l
            same_db refl refl l.in_force l.expiry_le (ground (arith, c))
            (refresh_timer_entry_self key entry new t l.armed) l.running l.due l.captured_from
            l.captured_to))

  duration_sound :
      (repos : Repositories) (now layout : ℕ) (actor : Actor) (key : LeaseKey) (duration : ℕ)
      (s s' : LeaseService Db) (w : LeaseWire)
      → IsSoundWorld r j (now, s)
      → bad_duration duration ≡ false
      → get key s.db ≡ some (j.marshal_lease w)
      → s'
        ≡ (changed r j repos now
            (with_expiry r j repos now (now + duration))
            (duration_finish r j repos now layout actor key duration)
            key
            w
            s).1
      → IsSoundWorld r j (now, s')
  duration_sound repos now layout actor key duration s s' w h c m q =
      let row = with_expiry r j repos now (now + duration) (lease_from_wire key w) in
      let entry = build_lease_entry repos row in
      let new = with_db (set key (j.marshal_lease (lease_wire row)) (lease_ttl now row) s.db) s in
      let l = sound-IsLeased r j now s key w (h key) m in
      let same_db = schedule_expiry-db now key (now + duration) entry new in
      let longer : now < now + duration = ground (arith, c) in
      rw q (
        sound-one r j now key s _ h
          (λ i p. (
            rw same_db (set-SameDb r j i key _ _ s.db p),
            schedule_expiry-other now key (now + duration) entry new i p,
          ))
          (changed_sound now s _ row w
            (record { entry = entry; captured = entry; due = now + duration; running = true }) l
            same_db refl refl longer (ground (arith, c)) l.limit_le
            (schedule_expiry-armed now key (now + duration) entry new longer) refl refl
            (captured_row repos row).0 (captured_row repos row).1))

  pub update_speed_limit-IsSoundWorld :
      (repos : Repositories) (now layout : ℕ) (actor : Actor) (key : LeaseKey) (limit : ℕ)
      (s : LeaseService Db)
      → IsSoundWorld r j (now, s)
      → IsSoundWorld r j (now, (update_speed_limit r j repos now layout actor key limit s).1)
  unfolding update_speed_limit
  update_speed_limit-IsSoundWorld repos now layout actor key limit s h =
      elim (Bool-cases repos.has_stores) [
        | inr p ↦ rw (p, update_speed_limit) h
        | inl p ↦ elim (Bool-cases (ltb 100 limit)) [
          | inl c ↦ rw (p, c, update_speed_limit) h
          | inr c ↦
              elim (update_loaded-cases r j repos now (with_limit r j repos now limit)
                (limit_finish r j repos now layout actor key) layout actor key s
                (sound-IsWritten r j now s key (h key)) (λ row. refl)) [
                  | inl (e, q) ↦ rw (q, p, c, update_speed_limit) h
                  | inr (w, m, active, allowed, q) ↦
                      limit_sound repos now layout actor key limit s _ w h c m
                        (rw (q, p, c, update_speed_limit) refl)
                ]
        ]
      ]

  pub update_duration-IsSoundWorld :
      (repos : Repositories) (now layout : ℕ) (actor : Actor) (key : LeaseKey) (duration : ℕ)
      (s : LeaseService Db)
      → IsSoundWorld r j (now, s)
      → IsSoundWorld r j (now, (update_duration r j repos now layout actor key duration s).1)
  unfolding update_duration
  update_duration-IsSoundWorld repos now layout actor key duration s h =
      elim (Bool-cases repos.has_stores) [
        | inr p ↦ rw (p, update_duration) h
        | inl p ↦ elim (Bool-cases (bad_duration duration)) [
          | inl c ↦ rw (p, c, update_duration) h
          | inr c ↦
              elim (update_loaded-cases r j repos now (with_expiry r j repos now (now + duration))
                (duration_finish r j repos now layout actor key duration) layout actor key s
                (sound-IsWritten r j now s key (h key)) (λ row. refl)) [
                  | inl (e, q) ↦ rw (q, p, c, update_duration) h
                  | inr (w, m, active, allowed, q) ↦
                      duration_sound repos now layout actor key duration s _ w h c m
                        (rw (q, p, c, update_duration) refl)
                ]
        ]
      ]
