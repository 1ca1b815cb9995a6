-- ===== src/Slotlease/Consistency/Deselect.antt =====
-- Every way out of `deselect` keeps the ledger consistent.
use bigfred.Base.{
  ℕ, ◌≡◌, refl, Bool, true, false, String, some, [], arith, Bool-cases, Option-cases, inl, inr,
  lookup, ◌==◌, nat_key, string_key,
}
use bigfred.Slotlease.Types.{
  Lease, Leaser, HolderKey, ReleaseReason, Effect, Metric, Components, holder_key,
}
use bigfred.Slotlease.Ledger.{
  emit, holder_count_for_user, remove_holder, drop_lease, put_lease, find_holder,
}
use bigfred.Slotlease.Reserve.{close_lease, drop_found, deselect_with}
use bigfred.Slotlease.Consistency.{
  IsSound, IsConsistent, stop_and_release-IsConsistent, enqueue_release-IsConsistent,
  erase-Consistent, insert-Consistent,
}
use bigfred.Slotlease.Consistency.Holders.{Removed, remove_holder-Removed}

module _ {a : ℕ} {le : Lease} {s : Leaser} (v : IsConsistent s) (e : lookup a s.leases ≡ some le)
    (r : Lease × Leaser × Bool) (d : Removed a le s r) where
  -- The lease is written back, with any other fields than its holders changed.
  pub put-IsConsistent :
      (le' : Lease) → IsSound a le' → le'.holders ≡ r.0.holders → IsConsistent (put_lease le' a r.1)
  put-IsConsistent le' w h =
      rw d.leases_eq
        (insert-Consistent v a le' r.1.per_user w (λ u n. ground (arith, d.counts u n)))

  -- The lease is deleted after its last holder.
  pub drop-IsConsistent : r.0.holders ≡ [] → IsConsistent (drop_lease a r.1)
  unfolding holder_count_for_user
  drop-IsConsistent h =
      rw d.leases_eq (erase-Consistent v a r.1.per_user (λ u n. ground (arith, d.counts u n)))

module _ (c : Components) where
  close_lease-IsConsistent :
      {a : ℕ} {le : Lease} {s : Leaser} (v : IsConsistent s) (e : lookup a s.leases ≡ some le)
      (r : Lease × Leaser × Bool) (d : Removed a le s r) (reason : ReleaseReason)
      (deferred async : Bool) (now : ℕ)
      → r.0.holders ≡ []
      → IsConsistent (close_lease c r.0 a reason deferred async now r.1)
  unfolding close_lease
  close_lease-IsConsistent v e r d reason true async now h =
      put-IsConsistent v e r d _
        (record {
          addr_eq = d.is_sound.addr_eq;
          holders_distinct = d.is_sound.holders_distinct;
          grace_empty = inr h;
        })
        refl
  close_lease-IsConsistent {a} v e r d reason false true now h =
      enqueue_release-IsConsistent c a reason _ (drop-IsConsistent v e r d h)
  close_lease-IsConsistent {a} v e r d reason false false now h =
      stop_and_release-IsConsistent c a reason _ (drop-IsConsistent v e r d h)

  drop_found-IsConsistent :
      (a : ℕ) (le : Lease) (s : Leaser)
      → IsConsistent s
      → lookup a s.leases ≡ some le
      → (found : HolderKey) (reason : ReleaseReason) (deferred async : Bool) (now : ℕ)
      → IsConsistent (drop_found c le found a reason deferred async now s)
  unfolding drop_found
  drop_found-IsConsistent a le s v e found reason deferred async now =
      split r.0.acquiring r.2 refl refl
    where
      s' : Leaser
      s' = emit (Effect.metric (Metric.deselect found.source)) s

      r : Lease × Leaser × Bool
      r = remove_holder le found s'

      d : Removed a le s' r
      d = remove_holder-Removed a le found s' v e

      split :
          (b l : Bool)
          → r.0.acquiring ≡ b
          → r.2 ≡ l
          → IsConsistent (drop_found c le found a reason deferred async now s)
      split true true p q =
          rw (p, q, drop_found)
            (put-IsConsistent v e r d _
              (record {
                addr_eq = d.is_sound.addr_eq;
                holders_distinct = d.is_sound.holders_distinct;
                grace_empty = d.is_sound.grace_empty;
              })
              refl)
      split true false p q = rw (p, q, drop_found) (put-IsConsistent v e r d r.0 d.is_sound refl)
      split false true p q =
          rw (p, q, drop_found)
            (close_lease-IsConsistent v e r d reason deferred async now (d.last_empty q))
      split false false p q = rw (p, q, drop_found) (put-IsConsistent v e r d r.0 d.is_sound refl)

  pub deselect_with-IsConsistent :
      (u : ℕ) (session : String) (a : ℕ) (reason : ReleaseReason) (deferred async : Bool) (now : ℕ)
      (s : Leaser)
      → IsConsistent s
      → IsConsistent (deselect_with c u session a reason deferred async now s)
  unfolding deselect_with
  deselect_with-IsConsistent u session a reason deferred async now s v =
      elim (Option-cases (lookup a s.leases)) [
        | inl e ↦ rw (e, deselect_with) v
        | inr (le, e) ↦ elim (Bool-cases ((find_holder u session le.holders).user_id == 0)) [
          | inl z ↦ rw (e, deselect_with) (rw z v)
          | inr z ↦
              rw (e, deselect_with)
                (rw z (
                  drop_found-IsConsistent a le s v e (find_holder u session le.holders) reason
                    deferred async now))
        ]
      ]
