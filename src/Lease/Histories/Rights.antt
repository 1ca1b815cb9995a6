-- ===== src/Lease/Histories/Rights.antt =====
-- Who can do what to a lease through the calls of server/cmd/lease.go, and that a call that fails
-- changes nothing.
use bigfred.Base.{
  ℕ, ◌+◌, ◌≡◌, refl, true, false, ◌||◌, none, some, List, [], ◌∷◌, ◌++◌, ltb, lookup,
  lookup-erase_self, ◌⊎◌, inl, inr, ◌==◌, nat_key, string_key, if◌then◌else◌, arith, Bool-cases,
  beq_refl,
}
use bigfred.Lease.Redis.{LeaseKey, Redis, LeaseWire, Json, lease_key_key}
use bigfred.Lease.Store.{lease_from_wire, lease_wire, lease_ttl, is_active}
use bigfred.Lease.Service.{
  LeaseService, ServiceError, Result, Repositories, LeaseEffect, EventType, build_lease_entry,
  cancel_timer, publish_event, with_db, emit_all,
}
use bigfred.Lease.Commands.{
  Actor, revoke, update_speed_limit, can_manage_granted_lease, can_revoke_lease, with_limit,
  limit_finish,
}
use bigfred.Lease.Commands.Outcomes.{IsWritten}
use bigfred.Lease.Commands.Loaded.{revoke-cases, update_loaded-cases, changed}
use bigfred.Lease.Histories.Frames.{refresh_timer_entry-db}
use bigfred.Lease.Histories.Granting.{lease_ttl-left}
use bigfred.Lease.Histories.Ending.{revoked-get}

module _ (r : Redis) (j : Json r.Payload) (repos : Repositories) (now : ℕ) where
  -- When what Redis holds under the key was written by the service: Revoke fails and changes nothing,
  -- or it succeeds and the caller is the owner, the lessee or an admin; then its first effects are
  -- that the target is braked and, after that, that the store deletes the lease, and afterwards Redis
  -- holds no lease for it and no timer is left.
  pub revoke-brakes :
      (layout : ℕ) (actor : Actor) (key : LeaseKey) (s : LeaseService r.Db)
      → IsWritten r j key s.db
      → ((e : ServiceError) × (revoke r j repos now layout actor key s ≡ (Result.err e, s)))
        ⊎ ((w : LeaseWire) × (rest : List LeaseEffect) × (r.get key s.db ≡ some (j.marshal_lease w))
            × ((actor.id == w.from_user_id || (actor.id == w.to_user_id || actor.is_admin)) ≡ true)
            × ((revoke r j repos now layout actor key s).1.effects
                ≡ ((s.effects ++ (LeaseEffect.stop_leased_target layout key ∷ []))
                    ++ (LeaseEffect.delete_lease key ∷ []))
                  ++ rest)
            × ((revoke r j repos now layout actor key s).0 ≡ Result.ok tt)
            × (r.get key (revoke r j repos now layout actor key s).1.db ≡ none)
            × (lookup key (revoke r j repos now layout actor key s).1.timers ≡ none))
  unfolding build_lease_entry cancel_timer can_revoke_lease
  revoke-brakes layout actor key s written =
      elim (revoke-cases r j repos now layout actor key s written) [
        | inl f ↦ inl f
        | inr (w, m, c, q) ↦ inr (
          w,
          LeaseEffect.sync_layout_roster layout
              ∷ publish_event layout actor.id actor.login EventType.lease_revoked
                  (build_lease_entry repos (lease_from_wire key w)),
          m,
          c,
          rw q refl,
          rw q refl,
          rw q (revoked-get r j key w s.db),
          rw q (lookup-erase_self key s.timers),
        )
      ]

  -- When what Redis holds under the key was written by the service: UpdateSpeedLimit fails and
  -- changes nothing, or it succeeds, the caller is the owner or an admin and the limit at most 100; then
  -- the answer is the entry with the limit, the lease that Redis holds afterwards differs in its speed
  -- limit only, but for an empty source, which is stored as "manual", and its time to live is up to its
  -- end.
  pub update_speed_limit-only :
      (layout : ℕ) (actor : Actor) (key : LeaseKey) (limit : ℕ) (s : LeaseService r.Db)
      → IsWritten r j key s.db
      → ((e : ServiceError) × (update_speed_limit r j repos now layout actor key limit s
            ≡ (Result.err e, s)))
        ⊎ ((w : LeaseWire) × (r.get key s.db ≡ some (j.marshal_lease w))
            × ((actor.id == w.from_user_id || actor.is_admin) ≡ true)
            × (ltb 100 limit ≡ false)
            × ((update_speed_limit r j repos now layout actor key limit s).0
                ≡ Result.ok (
                    build_lease_entry repos
                      (with_limit r j repos now limit (lease_from_wire key w))))
            × (r.get key (update_speed_limit r j repos now layout actor key limit s).1.db
                ≡ some (
                    j.marshal_lease (record {
                      from_user_id = w.from_user_id;
                      to_user_id = w.to_user_id;
                      speed_limit = limit;
                      started_at = w.started_at;
                      expires_at = w.expires_at;
                      source = if w.source == "" then "manual" else w.source;
                    })))
            × (r.pttl key (update_speed_limit r j repos now layout actor key limit s).1.db + now
                ≡ w.expires_at))
  unfolding update_speed_limit can_manage_granted_lease is_active lease_wire
  update_speed_limit-only layout actor key limit s written = elim (Bool-cases repos.has_stores) [
    | inr p ↦ inl (ServiceError.store_unavailable, rw (p, update_speed_limit) refl)
    | inl p ↦ elim (Bool-cases (ltb 100 limit)) [
      | inl c ↦ inl (ServiceError.invalid_speed_limit, rw (p, c, update_speed_limit) refl)
      | inr c ↦
          elim (update_loaded-cases r j repos now (with_limit r j repos now limit)
            (limit_finish r j repos now layout actor key) layout actor key s written
            (λ row. refl)) [
              | inl (e, q) ↦ inl (e, rw (q, p, c, update_speed_limit) refl)
              | inr (w, m, active, allowed, q) ↦
                  let row = with_limit r j repos now limit (lease_from_wire key w) in
                  let raw = j.marshal_lease (lease_wire row) in
                  let ttl = lease_ttl now row in
                  let new =
                    emit_all (LeaseEffect.sync_layout_roster layout ∷ [])
                      (with_db (r.set key raw ttl s.db) s) in
                  let same_db = refresh_timer_entry-db key (build_lease_entry repos row) new in
                  let opened : update_speed_limit r j repos now layout actor key limit s
                      ≡ changed r j repos now (with_limit r j repos now limit)
                          (limit_finish r j repos now layout actor key) key w s =
                    rw (q, p, c, update_speed_limit) refl in
                  inr (
                    w,
                    m,
                    allowed,
                    c,
                    rw opened refl,
                    rw (opened, same_db, r.get-set key key raw ttl s.db, beq_refl key) refl,
                    rw (opened, same_db, r.pttl-set key key raw ttl s.db, beq_refl key)
                        (lease_ttl-left now row (ground (arith, active))),
                  )
            ]
    ]
  ]
