-- ===== src/Lease/Commands/Loaded.antt =====
-- How the calls of server/cmd/lease.go end that load a lease first: Revoke and the updates.
use bigfred.Base.{
  ℕ, ◌≡◌, refl, ap, ◌∙◌, true, not, some, [], ◌∷◌, ◌⊎◌, inl, inr, arith, Bool-cases, Option-cases,
}
use bigfred.Lease.Redis.{LeaseKey, Redis, LeaseWire, Json}
use bigfred.Lease.Store.{
  LeaseRow, is_active, lease_from_wire, lease_wire, lease_ttl, unindex, revoke_lease_key-present,
}
use bigfred.Lease.Service.{
  LeaseEntry, Repositories, ServiceError, Result, err_if, EventType, LeaseEffect, build_lease_entry,
  emit_all, with_db, cancel_timer, has_kind,
}
use bigfred.Lease.Commands.{
  Actor, Service, layout_roster_index, announce, load_lease, can_revoke_lease, revoke_in_store,
  revoke_loaded, revoke, can_manage_granted_lease, update_stored, update_loaded,
}
use bigfred.Lease.Commands.Guards.{bind-ok, err_if-ok}
use bigfred.Lease.Commands.Outcomes.{
  IsWritten, Result-cases, get_lease-absent, get_lease-present, update_row-present,
}

module _ (r : Redis) (j : Json r.Payload) (repos : Repositories) (now : ℕ) where
  loaded_inj :
      (found : LeaseRow) (entry : LeaseEntry) (row : LeaseRow)
      → ◌≡◌ {A = Result (LeaseEntry × LeaseRow)}
          (Result.ok (build_lease_entry repos found, found))
          (Result.ok (entry, row))
      → (row ≡ found) × (entry ≡ build_lease_entry repos found)
  loaded_inj found entry row h = (cc, cc)

  pair_path :
      {e e' : LeaseEntry} {row row' : LeaseRow}
      → e ≡ e'
      → row ≡ row'
      → ◌≡◌ {A = LeaseEntry × LeaseRow} (e, row) (e', row')
  pair_path p q = rw (p, q) refl

  -- What loadLease finds.
  pub load_lease-ok :
      (layout : ℕ) (key : LeaseKey) (s : Service r) (entry : LeaseEntry) (row : LeaseRow)
      → IsWritten r j key s.db
      → load_lease r j repos now layout key s ≡ Result.ok (entry, row)
      → (w : LeaseWire) × (r.get key s.db ≡ some (j.marshal_lease w))
        × (row ≡ lease_from_wire key w)
        × (entry ≡ build_lease_entry repos (lease_from_wire key w))
        × (is_active now (lease_from_wire key w) ≡ true)
  unfolding load_lease
  load_lease-ok layout key s entry row written h =
      bind-ok (err_if (not repos.has_stores) ServiceError.store_unavailable) _ _ h (λ a ha h1.
        bind-ok (layout_roster_index repos layout) _ _ h1 (λ idx hi h2.
          elim (Bool-cases (has_kind key)) [
            | inr p ↦ let never = rw p at h2 in cc
            | inl p ↦ elim (Option-cases (r.get key s.db)) [
              | inl e ↦ let never = rw (p, get_lease-absent r j key s.db e) at h2 in cc
              | inr (raw, e) ↦
                  let (w, m) = written raw e in
                  let at_w = rw m at e in
                  let h3 = rw (p, get_lease-present r j key w s.db at_w) at h2 in
                  let found = lease_from_wire key w in
                  bind-ok (err_if (not (is_active now found)) ServiceError.lease_not_found) _ _ h3
                    (λ b hb h4.
                      bind-ok (err_if (not (idx key)) ServiceError.target_not_on_layout) _ _ h4
                        (λ c hc h5. (
                          w,
                          at_w,
                          (loaded_inj found entry row h5).0,
                          (loaded_inj found entry row h5).1,
                          ground (arith, err_if-ok _ _ _ hb),
                        )))
            ]
          ]))

  -- What Revoke answers and leaves behind.
  abbrev pub revoked : ℕ → Actor → LeaseKey → LeaseWire → Service r → Result (Unit {0}) × Service r
  revoked layout actor key w s = (
    Result.ok tt,
    announce r j repos now layout actor EventType.lease_revoked
        (build_lease_entry repos (lease_from_wire key w))
        (cancel_timer key (
          emit_all (LeaseEffect.delete_lease key ∷ []) (
            with_db (unindex r j key w (r.del key s.db))
              (emit_all (LeaseEffect.stop_leased_target layout key ∷ []) s)))),
  )

  -- loadLease fails, or finds the lease that Redis holds, in force.
  pub load_lease-cases :
      (layout : ℕ) (key : LeaseKey) (s : Service r)
      → IsWritten r j key s.db
      → ((e : ServiceError) × (load_lease r j repos now layout key s ≡ Result.err e))
        ⊎ ((w : LeaseWire) × (r.get key s.db ≡ some (j.marshal_lease w))
            × (is_active now (lease_from_wire key w) ≡ true)
            × (load_lease r j repos now layout key s
                ≡ Result.ok
                    (build_lease_entry repos (lease_from_wire key w), lease_from_wire key w)))
  load_lease-cases layout key s written =
      elim (Result-cases (load_lease r j repos now layout key s)) [
        | inl f ↦ inl f
        | inr ((entry, row), q) ↦
            let (w, m, n, o, active) = load_lease-ok layout key s entry row written q in
            inr (w, m, active, q ∙ ap Result.ok (pair_path o n))
      ]

  revoke_loaded-present :
      (layout : ℕ) (actor : Actor) (key : LeaseKey) (s : Service r) (w : LeaseWire)
      → r.get key s.db ≡ some (j.marshal_lease w)
      → revoke_loaded r j repos now layout actor key
          (build_lease_entry repos (lease_from_wire key w))
          (lease_from_wire key w)
          s
        ≡ revoked layout actor key w s
  unfolding revoke_loaded revoke_in_store
  revoke_loaded-present layout actor key s w m =
      let gone = revoke_lease_key-present r j key w s.db m in
      rw (gone, revoke_loaded, revoke_in_store, gone) refl

  pub revoke-cases :
      (layout : ℕ) (actor : Actor) (key : LeaseKey) (s : Service r)
      → IsWritten r j key s.db
      → ((e : ServiceError) × (revoke r j repos now layout actor key s ≡ (Result.err e, s)))
        ⊎ ((w : LeaseWire) × (r.get key s.db ≡ some (j.marshal_lease w))
            × (can_revoke_lease actor (build_lease_entry repos (lease_from_wire key w)) ≡ true)
            × (revoke r j repos now layout actor key s ≡ revoked layout actor key w s))
  unfolding revoke
  revoke-cases layout actor key s written = elim (load_lease-cases layout key s written) [
    | inl (e, q) ↦ inl (e, rw (q, revoke) refl)
    | inr (w, m, active, q) ↦
        elim (Bool-cases
          (can_revoke_lease actor (build_lease_entry repos (lease_from_wire key w)))) [
            | inl c ↦
                inr (w, m, c, rw (q, c, revoke) (revoke_loaded-present layout actor key s w m))
            | inr c ↦ inl (ServiceError.not_party, rw (q, c, revoke) refl)
          ]
  ]

  -- What the updates answer and leave behind.
  abbrev pub changed :
      (LeaseRow → LeaseRow)
      → (LeaseEntry → Service r → Service r)
      → LeaseKey
      → LeaseWire
      → Service r
      → Result LeaseEntry × Service r
  changed change finish key w s =
      let row = change (lease_from_wire key w) in
      let entry = build_lease_entry repos row in
      (
        Result.ok entry,
        finish entry
            (with_db (r.set row.key (j.marshal_lease (lease_wire row)) (lease_ttl now row) s.db) s),
      )

  update_stored-present :
      (change : LeaseRow → LeaseRow) (finish : LeaseEntry → Service r → Service r) (key : LeaseKey)
      (s : Service r) (w : LeaseWire)
      → r.get key s.db ≡ some (j.marshal_lease w)
      → ((row : LeaseRow) → (change row).key ≡ row.key)
      → update_stored r j repos now (change (lease_from_wire key w)) finish s
        ≡ changed change finish key w s
  unfolding update_stored
  update_stored-present change finish key s w m keeps =
      let row = change (lease_from_wire key w) in
      let same : row.key ≡ key = keeps (lease_from_wire key w) in
      let found : r.get row.key s.db ≡ some (j.marshal_lease w) = rw same m in
      let set = update_row-present r j now row s.db (j.marshal_lease w) found in
      rw (set, update_stored, set) refl

  pub update_loaded-cases :
      (change : LeaseRow → LeaseRow) (finish : LeaseEntry → Service r → Service r) (layout : ℕ)
      (actor : Actor) (key : LeaseKey) (s : Service r)
      → IsWritten r j key s.db
      → ((row : LeaseRow) → (change row).key ≡ row.key)
      → ((e : ServiceError) × (update_loaded r j repos now change finish layout actor key s
            ≡ (Result.err e, s)))
        ⊎ ((w : LeaseWire) × (r.get key s.db ≡ some (j.marshal_lease w))
            × (is_active now (lease_from_wire key w) ≡ true)
            × (can_manage_granted_lease actor w.from_user_id ≡ true)
            × (update_loaded r j repos now change finish layout actor key s
                ≡ changed change finish key w s))
  unfolding update_loaded build_lease_entry
  update_loaded-cases change finish layout actor key s written keeps =
      elim (load_lease-cases layout key s written) [
        | inl (e, q) ↦ inl (e, rw (q, update_loaded) refl)
        | inr (w, m, active, q) ↦
            elim (Bool-cases (can_manage_granted_lease actor w.from_user_id)) [
              | inl c ↦ inr (
                w,
                m,
                active,
                c,
                rw (q, c, update_loaded) (update_stored-present change finish key s w m keeps),
              )
              | inr c ↦ inl (ServiceError.not_owner, rw (q, c, update_loaded) refl)
            ]
      ]
