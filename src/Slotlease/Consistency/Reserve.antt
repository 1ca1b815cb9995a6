-- ===== src/Slotlease/Consistency/Reserve.antt =====
-- `Reserve` keeps the ledger consistent, on every branch.
use bigfred.Base.{
  ℕ, ◌+◌, ◌≡◌, ◌⊎◌, refl, sym, ◌∙◌, true, false, ◌&&◌, ◌≤◌, ◌<◌, String, some, arith, Bool-cases,
  Option-cases, inl, inr, ltb, leb, has, lookup, maybe, Distinct, nat_key, string_key,
  insert-Distinct,
}
use mathlib.Core.Path.{subst}
use bigfred.Slotlease.Types.{
  Lease, Leaser, HolderKey, Effect, Metric, Components, holder_key, cap_evict,
}
use bigfred.Slotlease.Ledger.{
  emit, new_lease, holder_count_for_user, increment_user, oldest_evictable_addr,
}
use bigfred.Slotlease.Counts.{
  per_user_of, per_user_of-increment, append_user_addr-keeps, holder_count-insert,
}
use bigfred.Slotlease.Reserve.{
  cancel_release, add_holder, reserve_holder, reserve_cap, reserve_budget, reserve_within, reserve,
  needs_physical_slot, gate_allows, deselect_with,
}
use bigfred.Slotlease.Headroom.{ensure_budget_headroom-IsConsistent}
use bigfred.Slotlease.Consistency.{IsSound, IsConsistent, lookup-IsSound, insert-Consistent}
use bigfred.Slotlease.Consistency.Deselect.{deselect_with-IsConsistent}

-- The lease that `Reserve` goes on with.
abbrev pub start_lease : ℕ → Leaser → Lease
start_lease a s = maybe (new_lease a) (λ l. l) (lookup a s.leases)

start_lease-IsSound : (a : ℕ) (s : Leaser) → IsConsistent s → IsSound a (start_lease a s)
start_lease-IsSound a s v = elim (Option-cases (lookup a s.leases)) [
  | inl e ↦ rw e (record { addr_eq = refl; holders_distinct = tt; grace_empty = inl refl })
  | inr (le, e) ↦ rw e (lookup-IsSound v a le e)
]

pub start_lease-count :
    (a u : ℕ) (s : Leaser)
    → maybe 0 (λ (l : Lease). holder_count_for_user u l.holders) (lookup a s.leases)
      ≡ holder_count_for_user u (start_lease a s).holders
unfolding holder_count_for_user
start_lease-count a u s = ground arith

pub cancel_release-keeps :
    (a now : ℕ) (le : Lease) (s : Leaser)
    → let r = cancel_release a now (le, s) in
      (r.0.holders ≡ le.holders)
      × (r.0.addr ≡ le.addr)
      × (r.1.leases ≡ s.leases)
      × (r.1.per_user ≡ s.per_user)
unfolding cancel_release
cancel_release-keeps a now le s = ground arith

pub add_holder-keeps :
    (key : HolderKey) (a : ℕ) (le : Lease) (s : Leaser)
    → let r = add_holder key a (le, s) in
      (r.0.addr ≡ le.addr) × (r.0.release_at ≡ le.release_at) × (r.1.leases ≡ s.leases)
unfolding add_holder increment_user
add_holder-keeps key a le s =
    ground (arith, append_user_addr-keeps key.user_id a (increment_user key.user_id s))

add_holder-counts :
    (key : HolderKey) (a u : ℕ) (le : Lease) (s : Leaser)
    → let r = add_holder key a (le, s) in
      per_user_of u r.1.per_user + holder_count_for_user u le.holders
      ≡ per_user_of u s.per_user + holder_count_for_user u r.0.holders
unfolding add_holder
add_holder-counts key a u le s = ground (
  arith,
  append_user_addr-keeps key.user_id a (increment_user key.user_id s),
  per_user_of-increment key.user_id u s,
  holder_count-insert u key le.holders,
)

add_holder-Distinct :
    (key : HolderKey) (a : ℕ) (le : Lease) (s : Leaser)
    → Distinct le.holders
    → Distinct (add_holder key a (le, s)).0.holders
unfolding add_holder
add_holder-Distinct key a le s d = elim (Bool-cases (has key le.holders)) [
  | inl e ↦ rw e d
  | inr e ↦ rw e (insert-Distinct key tt le.holders d)
]

pub reserve_holder-IsConsistent :
    (key : HolderKey) (a now : ℕ) (s : Leaser)
    → IsConsistent s
    → IsConsistent (reserve_holder key a now s)
unfolding reserve_holder
reserve_holder-IsConsistent key a now s v =
    let (_, _, kept) = added in
    rw (kept ∙ cancelled.2) (
      insert-Consistent v a _ r2.1.per_user
        (record {
          addr_eq = ground (arith, added.0, cancelled.1, start.addr_eq);
          holders_distinct =
              add_holder-Distinct key a l0 r1.1 (rw cancelled.0 start.holders_distinct);
          grace_empty = inl added.1;
        })
        (λ u n.
          ground (arith, add_holder-counts key a u l0 r1.1, start_lease-count a u s, cancelled)))
  where
    start : IsSound a (start_lease a s)
    start = start_lease-IsSound a s v

    r1 : Lease × Leaser
    r1 = cancel_release a now (start_lease a s, s)

    cancelled :
        (r1.0.holders ≡ (start_lease a s).holders)
        × (r1.0.addr ≡ (start_lease a s).addr)
        × (r1.1.leases ≡ s.leases)
        × (r1.1.per_user ≡ s.per_user)
    cancelled = cancel_release-keeps a now (start_lease a s) s

    l0 : Lease
    l0 = record (r1.0) { release_at = 0 }

    r2 : Lease × Leaser
    r2 = add_holder key a (l0, r1.1)

    added : (r2.0.addr ≡ l0.addr) × (r2.0.release_at ≡ 0) × (r2.1.leases ≡ r1.1.leases)
    added = add_holder-keeps key a l0 r1.1

module _ (c : Components) where
  pub reserve_budget-IsConsistent :
      (a : ℕ) (s : Leaser) → IsConsistent s → IsConsistent (reserve_budget c a s).0
  unfolding reserve_budget
  reserve_budget-IsConsistent a s v =
      elim (Bool-cases (ltb 0 s.max_slots && needs_physical_slot c a s)) [
        | inl e ↦ rw e (ensure_budget_headroom-IsConsistent c 1 s v)
        | inr e ↦ rw e v
      ]

  -- How `Reserve` passes the per-user cap: below it, or by deselecting the oldest other address.
  pub reserve_cap-cases :
      (u : ℕ) (session : String) (a now : ℕ) (s t : Leaser) (evicted : ℕ)
      → reserve_cap c u session a now s ≡ some (t, evicted)
      → ((per_user_of u s.per_user < s.max_per_user) × (t ≡ s) × (evicted ≡ 0))
        ⊎ ((s.max_per_user ≤ per_user_of u s.per_user)
            × (oldest_evictable_addr u a s ≡ some evicted)
            × (t
                ≡ emit
                    (Effect.metric Metric.cap_evict)
                    (deselect_with c u session evicted cap_evict false true now s)))
  unfolding reserve_cap
  reserve_cap-cases u session a now s t evicted e =
      elim (Bool-cases (leb s.max_per_user (per_user_of u s.per_user))) [
        | inr q ↦ inl (ground arith, ground arith, ground arith)
        | inl q ↦ elim (Option-cases (oldest_evictable_addr u a s)) [
          | inl o ↦ absurd (ground arith)
          | inr (x, o) ↦ inr (ground arith, ground arith, ground arith)
        ]
      ]

  reserve_cap-IsConsistent :
      (u : ℕ) (session : String) (a now : ℕ) (s t : Leaser) (evicted : ℕ)
      → IsConsistent s
      → reserve_cap c u session a now s ≡ some (t, evicted)
      → IsConsistent t
  reserve_cap-IsConsistent u session a now s t evicted v e =
      elim (reserve_cap-cases u session a now s t evicted e) [
        | inl (_, p, _) ↦ subst IsConsistent (sym p) v
        | inr (_, _, p) ↦
            subst IsConsistent (sym p)
              (deselect_with-IsConsistent c u session evicted cap_evict false true now s v)
      ]

  reserve_within-IsConsistent :
      (u : ℕ) (session source : String) (a now : ℕ) (s : Leaser)
      → IsConsistent s
      → IsConsistent (reserve_within c u session source a now s).0
  unfolding reserve_within
  reserve_within-IsConsistent u session source a now s v =
      elim (Option-cases (reserve_cap c u session a now s)) [
        | inl e ↦ rw (e, reserve_within) v
        | inr ((t, evicted), e) ↦
            rw (e, reserve_within)
              (reserve_holder-IsConsistent _ a now t
                (reserve_cap-IsConsistent u session a now s t evicted v e))
      ]

  -- `Reserve` keeps the ledger consistent, whether it succeeds or not.
  pub reserve-IsConsistent :
      (u : ℕ) (session source : String) (a now : ℕ) (s : Leaser)
      → IsConsistent s
      → IsConsistent (reserve c u session source a now s).0
  unfolding reserve
  reserve-IsConsistent u session source a now s v = elim (Bool-cases (gate_allows c u a)) [
    | inr e ↦ rw e v
    | inl e ↦ elim (Bool-cases (reserve_budget c a s1).1) [
      | inl room ↦ rw e (
          rw room (
            reserve_within-IsConsistent u session source a now (reserve_budget c a s1).0
              (reserve_budget-IsConsistent a s1 v)))
      | inr full ↦ rw e (rw full (reserve_budget-IsConsistent a s1 v))
    ]
  ]
    where
      s1 : Leaser
      s1 = emit (Effect.metric (Metric.select source)) s
