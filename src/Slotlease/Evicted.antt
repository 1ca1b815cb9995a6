-- ===== src/Slotlease/Evicted.antt =====
-- What an eviction of `Reserve` in leaser.go leaves of the leases.
use bigfred.Base.{
  ℕ, ◌+◌, ◌≡◌, ◌≢◌, refl, ap, ◌∙◌, Bool, true, false, String, some, List, [], ◌∷◌, Map, arith,
  Bool-cases, Option-cases, inl, inr, ltb, has, lookup, maybe, ◌==◌, nat_key, lookup-insert,
  lookup-erase, lookup-insert_self, lookup-erase_self, insert, erase,
}
use bigfred.Slotlease.Types.{
  Lease, Leaser, HolderKey, ReleaseReason, Components, Effect, Metric, holder_key,
}
use bigfred.Slotlease.Ledger.{
  emit, holder_count_for_user, find_holder, evictable_in, oldest_evictable_addr, remove_holder,
  without_holder, decrement_user,
}
use bigfred.Slotlease.Reserve.{deselect_with, close_lease, drop_found}
use bigfred.Slotlease.Counts.{remove_user_addr-keeps, decrement_user-keeps}
use bigfred.Slotlease.Untouched.{core-stop_and_release, core-enqueue_release}

evictable_in_skips :
    (u skip : ℕ) (leases : Map ℕ Lease) (order : List ℕ) (b : ℕ)
    → evictable_in u skip leases order ≡ some b
    → b ≢ skip
unfolding evictable_in
evictable_in_skips u skip leases [] b h = cc
evictable_in_skips u skip leases (a ∷ order) b h = elim (Bool-cases (a == skip)) [
  | inl p ↦ evictable_in_skips u skip leases order b (rw (p, evictable_in) at h)
  | inr p ↦ elim (Option-cases (lookup a leases)) [
    | inl e ↦ evictable_in_skips u skip leases order b (rw (p, e, evictable_in) at h)
    | inr (le, e) ↦ elim (Bool-cases (ltb 0 (holder_count_for_user u le.holders))) [
      | inl q ↦ ground (arith, p, e, q)
      | inr q ↦ evictable_in_skips u skip leases order b (ground (arith, p, e, q))
    ]
  ]
]

-- The evicted address is another one than the reserved.
pub oldest_evictable_ne :
    (u skip : ℕ) (s : Leaser) (b : ℕ) → oldest_evictable_addr u skip s ≡ some b → b ≢ skip
unfolding oldest_evictable_addr
oldest_evictable_ne u skip s b =
    evictable_in_skips u skip s.leases (maybe [] (λ l. l) (lookup u s.user_addr_order)) b

removed-leases :
    (le : Lease) (key : HolderKey) (s : Leaser) → (remove_holder le key s).1.leases ≡ s.leases
unfolding remove_holder
removed-leases le key s = ground (
  arith,
  remove_user_addr-keeps key.user_id le.addr (decrement_user key.user_id s),
  decrement_user-keeps key.user_id s,
)

removed-holder :
    (le : Lease) (key : HolderKey) (s : Leaser) → has key (remove_holder le key s).0.holders ≡ false
unfolding remove_holder without_holder
removed-holder le key s = ground (arith, lookup-erase_self key le.holders)

module _ (c : Components) where
  lookup-close_lease_ne :
      (le : Lease) (a b : ℕ) (reason : ReleaseReason) (deferred async : Bool) (now : ℕ) (s : Leaser)
      → b ≢ a
      → lookup b (close_lease c le a reason deferred async now s).leases ≡ lookup b s.leases
  unfolding close_lease
  lookup-close_lease_ne le a b reason true async now s n =
      ground (arith, lookup-insert b a (record le { release_at = now + s.switcher_grace }) s.leases)
  lookup-close_lease_ne le a b reason false true now s n =
      ap (λ (x : Leaser). lookup b x.leases) (core-enqueue_release c a reason _)
      ∙ ground (arith, lookup-erase b a s.leases)
  lookup-close_lease_ne le a b reason false false now s n =
      ap (λ (x : Leaser). lookup b x.leases) (core-stop_and_release c a reason _)
      ∙ ground (arith, lookup-erase b a s.leases)

  lookup-drop_found_ne :
      (le : Lease) (found : HolderKey) (a b : ℕ) (reason : ReleaseReason) (deferred async : Bool)
      (now : ℕ) (s : Leaser)
      → b ≢ a
      → lookup b (drop_found c le found a reason deferred async now s).leases ≡ lookup b s.leases
  unfolding drop_found
  lookup-drop_found_ne le found a b reason deferred async now s n =
      let s1 = emit (Effect.metric (Metric.deselect found.source)) s in
      let r = remove_holder le found s1 in
      ground (
        arith,
        removed-leases le found s1,
        lookup-close_lease_ne r.0 a b reason deferred async now r.1 n,
        lookup-insert b a r.0 r.1.leases,
        lookup-insert b a (record (r.0) { release_after = true; pending_release_reason = reason })
            r.1.leases,
      )

  -- The holder that is dropped does not hold the address afterwards.
  pub drop_found-gone :
      (le : Lease) (found : HolderKey) (a : ℕ) (reason : ReleaseReason) (now : ℕ) (s : Leaser)
      → maybe false
          (λ l. has found l.holders)
          (lookup a (drop_found c le found a reason false true now s).leases)
        ≡ false
  unfolding drop_found close_lease
  drop_found-gone le found a reason now s =
      let s1 = emit (Effect.metric (Metric.deselect found.source)) s in
      let r = remove_holder le found s1 in
      let kept = record (r.0) { release_after = true; pending_release_reason = reason } in
      let erased =
        emit Effect.notify_diag
          (record (r.1) { leases = erase a r.1.leases; releasing = insert a tt r.1.releasing }) in
      ground (
        arith,
        removed-holder le found s1,
        lookup-insert_self a kept r.1.leases,
        lookup-insert_self a r.0 r.1.leases,
        lookup-erase_self a r.1.leases,
        ap (λ (x : Leaser). lookup a x.leases) (core-enqueue_release c a reason erased),
      )

  pub lookup-deselect_with_ne :
      (u : ℕ) (session : String) (a b : ℕ) (reason : ReleaseReason) (deferred async : Bool)
      (now : ℕ) (s : Leaser)
      → b ≢ a
      → lookup b (deselect_with c u session a reason deferred async now s).leases
        ≡ lookup b s.leases
  unfolding deselect_with
  lookup-deselect_with_ne u session a b reason deferred async now s n =
      elim (Option-cases (lookup a s.leases)) [
        | inl e ↦ rw (e, deselect_with) refl
        | inr (le, e) ↦ elim (Bool-cases ((find_holder u session le.holders).user_id == 0)) [
          | inl z ↦ rw (e, deselect_with) (rw z refl)
          | inr z ↦
              rw (e, deselect_with)
                (rw z (
                  lookup-drop_found_ne le (find_holder u session le.holders) a b reason deferred
                    async now s n))
        ]
      ]
