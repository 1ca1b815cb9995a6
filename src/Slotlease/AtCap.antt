-- ===== src/Slotlease/AtCap.antt =====
-- `Reserve` of a user who is at the cap.
use bigfred.Base.{
  ℕ, ◌+◌, ◌-◌, ◌≡◌, ◌≢◌, ◌≤◌, ◌<◌, refl, sym, ap, ◌∙◌, true, false, String, none, some, arith, has,
  lookup, maybe, nat_key,
}
use bigfred.Slotlease.Types.{
  Lease, Leaser, HolderKey, Components, Effect, Metric, cap_evict, holder_key,
}
use bigfred.Slotlease.Ledger.{emit, find_holder, oldest_evictable_addr}
use bigfred.Slotlease.Reserve.{
  deselect_with, drop_found, reserve_cap, reserve_holder, reserve_within, reserve, gate_allows,
  reserve_budget,
}
use bigfred.Slotlease.Counts.{per_user_of}
use bigfred.Slotlease.Consistency.Reserve.{start_lease}
use bigfred.Slotlease.Cap.{
  deselect_with-per_user, per_user_of-reserve_holder, lookup-reserve_holder_ne, new_holders,
}
use bigfred.Slotlease.Evicted.{oldest_evictable_ne, lookup-deselect_with_ne, drop_found-gone}

module _ (c : Components) where
  module _ (u : ℕ) (session source : String) (a now b : ℕ) (s : Leaser) where
    abbrev pub key_of : HolderKey
    key_of = record { user_id = u; session = session; source = source }

    abbrev after_evict : Leaser
    after_evict =
        emit (Effect.metric Metric.cap_evict)
          (deselect_with c u session b cap_evict false true now s)

    at_cap :
        s.max_per_user ≤ per_user_of u s.per_user
        → oldest_evictable_addr u a s ≡ some b
        → reserve_within c u session source a now s
          ≡ (reserve_holder key_of a now after_evict, b, none)
    unfolding reserve_within reserve_cap
    at_cap l o = ground arith

    at_cap-evicts_nothing :
        (le : Lease)
        → s.max_per_user ≤ per_user_of u s.per_user
        → oldest_evictable_addr u a s ≡ some b
        → has key_of (start_lease a s).holders ≡ false
        → lookup b s.leases ≡ some le
        → (find_holder u session le.holders).user_id ≡ 0
        → let r = reserve_within c u session source a now s in
          (r.1 ≡ b)
          × (r.2 ≡ none)
          × (lookup b r.0.leases ≡ some le)
          × (s.max_per_user < per_user_of u r.0.per_user)
    unfolding deselect_with
    at_cap-evicts_nothing le l o new e z = rw (at_cap l o) (refl, refl, there, over)
      where
        unchanged :
            after_evict
            ≡ emit (Effect.metric Metric.cap_evict) (emit (Effect.metric (Metric.deselect "_")) s)
        unchanged = ground arith

        there : lookup b (reserve_holder key_of a now after_evict).leases ≡ some le
        there =
            lookup-reserve_holder_ne key_of a b now after_evict (oldest_evictable_ne u a s b o)
            ∙ (ap (λ (x : Leaser). lookup b x.leases) unchanged ∙ e)

        count :
            per_user_of u (reserve_holder key_of a now after_evict).per_user
            ≡ per_user_of u s.per_user + new_holders key_of a s
        count =
            per_user_of-reserve_holder key_of a now after_evict
            ∙ ap (λ (x : Leaser). per_user_of u x.per_user + new_holders key_of a x) unchanged

        over : s.max_per_user < per_user_of u (reserve_holder key_of a now after_evict).per_user
        over = ground (arith, count, new, l)

    at_cap-evicts :
        (mine le : Lease)
        → s.max_per_user ≤ per_user_of u s.per_user
        → oldest_evictable_addr u a s ≡ some b
        → lookup a s.leases ≡ some mine
        → has key_of mine.holders ≡ true
        → lookup b s.leases ≡ some le
        → (find_holder u session le.holders).user_id ≢ 0
        → let r = reserve_within c u session source a now s in
          (r.1 ≡ b)
          × (r.2 ≡ none)
          × (maybe false
                (λ l. has (find_holder u session le.holders) l.holders)
                (lookup b r.0.leases)
              ≡ false)
          × (per_user_of u r.0.per_user ≡ per_user_of u s.per_user - 1)
    unfolding deselect_with
    at_cap-evicts mine le l o held h e z = rw (at_cap l o) (refl, refl, gone, count)
      where
        same : lookup a after_evict.leases ≡ some mine
        same =
            lookup-deselect_with_ne c u session b a cap_evict false true now s
              (λ p. oldest_evictable_ne u a s b o (sym p))
            ∙ held

        dropped :
            deselect_with c u session b cap_evict false true now s
            ≡ drop_found c le (find_holder u session le.holders) b cap_evict false true now s
        dropped = ground (arith, e, z)

        gone :
            maybe false
              (λ l. has (find_holder u session le.holders) l.holders)
              (lookup b (reserve_holder key_of a now after_evict).leases)
            ≡ false
        gone =
            rw
              (
                lookup-reserve_holder_ne key_of a b now after_evict (oldest_evictable_ne u a s b o),
                dropped,
              )
              (drop_found-gone c le (find_holder u session le.holders) b cap_evict now s)

        count :
            per_user_of u (reserve_holder key_of a now after_evict).per_user
            ≡ per_user_of u s.per_user - 1
        count = ground (
          arith,
          per_user_of-reserve_holder key_of a now after_evict,
          same,
          deselect_with-per_user c u session b cap_evict false true now s le e,
        )

    -- Reserve behind the gate and the budget, where `s` is the ledger that the budget leaves.
    within :
        (s₀ : Leaser)
        → gate_allows c u a ≡ true
        → reserve_budget c a (emit (Effect.metric (Metric.select source)) s₀) ≡ (s, true)
        → reserve c u session source a now s₀ ≡ reserve_within c u session source a now s
    unfolding reserve
    within s₀ g r = rw (g, r) refl

    -- Where the gate and the budget let Reserve pass, and leave the user at the cap, without the
    -- reserved address, and with the oldest other address not held from the calling session: Reserve
    -- answers that it has evicted that other address, without an error, but that lease stays as the
    -- budget left it, and the user is over the cap.
    pub reserve-evicts_nothing :
        (s₀ : Leaser) (le : Lease)
        → gate_allows c u a ≡ true
        → reserve_budget c a (emit (Effect.metric (Metric.select source)) s₀) ≡ (s, true)
        → s.max_per_user ≤ per_user_of u s.per_user
        → oldest_evictable_addr u a s ≡ some b
        → has key_of (start_lease a s).holders ≡ false
        → lookup b s.leases ≡ some le
        → (find_holder u session le.holders).user_id ≡ 0
        → let r = reserve c u session source a now s₀ in
          (r.1 ≡ b)
          × (r.2 ≡ none)
          × (lookup b r.0.leases ≡ some le)
          × (s.max_per_user < per_user_of u r.0.per_user)
    reserve-evicts_nothing s₀ le g r l o new e z =
        rw (within s₀ g r) (at_cap-evicts_nothing le l o new e z)

    -- Where the gate and the budget let Reserve pass, and leave the user at the cap: a Reserve of an
    -- address that the same holder has already still evicts the user's oldest other address, where the
    -- session holds that one too. It answers that address, the holder found there does not hold it any
    -- more, and the user's count goes down by one.
    pub reserve_held-evicts :
        (s₀ : Leaser) (mine le : Lease)
        → gate_allows c u a ≡ true
        → reserve_budget c a (emit (Effect.metric (Metric.select source)) s₀) ≡ (s, true)
        → s.max_per_user ≤ per_user_of u s.per_user
        → oldest_evictable_addr u a s ≡ some b
        → lookup a s.leases ≡ some mine
        → has key_of mine.holders ≡ true
        → lookup b s.leases ≡ some le
        → (find_holder u session le.holders).user_id ≢ 0
        → let r = reserve c u session source a now s₀ in
          (r.1 ≡ b)
          × (r.2 ≡ none)
          × (maybe false
                (λ l. has (find_holder u session le.holders) l.holders)
                (lookup b r.0.leases)
              ≡ false)
          × (per_user_of u r.0.per_user ≡ per_user_of u s.per_user - 1)
    reserve_held-evicts s₀ mine le g r l o held h e z =
        rw (within s₀ g r) (at_cap-evicts mine le l o held h e z)
