-- ===== src/Slotlease/Stops.antt =====
-- What a release does on the bus: the locomotive is stopped before its slot goes, a slot in use
-- again is left alone, and a slot that the command station keeps is remembered.
use bigfred.Base.{
  ℕ, zero, suc, ◌+◌, ◌≡◌, ◌⊎◌, refl, sym, ap, ◌∙◌, Bool, true, not, ◌&&◌, ◌≤◌, ◌<◌, Option, none,
  some, List, [], ◌∷◌, ◌++◌, arith, Bool-cases, Option-cases, inl, inr, if◌then◌else◌, ltb, has,
  is_some, lookup, insert, erase, ◌==◌, nat_key, string_key, beq_refl,
}
use mathlib.Core.List.{append_assoc}
use bigfred.Slotlease.Types.{
  Leaser, ReleaseReason, LeaseError, SpeedError, SlotStation, Components, Effect, Metric,
}
use bigfred.Slotlease.Ledger.{emit}
use bigfred.Slotlease.Release.{
  release_aborted_by_reuse, slot_release_retry_count, retry_release, release_slot_with_retry,
  stored_forward, write_stop, broadcast_stop, estop_before_release, settle_release,
  stop_and_release, is_failure,
}
use bigfred.Slotlease.Untouched.{core-estop}

-- How often the command station was asked to release the slot.
abbrev pub releases_of : ℕ → List Effect → ℕ
releases_of a [] = 0
releases_of a (Effect.release_slot b ∷ xs) = (if b == a then 1 else 0) + releases_of a xs
releases_of a (x ∷ xs) = releases_of a xs

-- How often it took the release, by its answers at those requests; the latest effect stands first.
abbrev pub taken_of : SlotStation → ℕ → List Effect → ℕ
taken_of st a [] = 0
taken_of st a (Effect.release_slot b ∷ xs) =
    (if b == a && not (is_some (st.release_slot xs b)) then 1 else 0) + taken_of st a xs
taken_of st a (x ∷ xs) = taken_of st a xs

retry-attempts :
    (st : SlotStation) (a n : ℕ) (last : Option LeaseError) (s : Leaser)
    → (is_some last ≡ true) ⊎ (0 < n)
    → let r = retry_release st a n last s in
      ((r.1 ≡ none)
        × (releases_of a s.effects < releases_of a r.0.effects)
        × (releases_of a r.0.effects ≤ releases_of a s.effects + n)
        × (taken_of st a r.0.effects ≡ taken_of st a s.effects + 1))
      ⊎ ((is_some r.1 ≡ true)
          × (releases_of a r.0.effects ≡ releases_of a s.effects + n)
          × (taken_of st a r.0.effects ≡ taken_of st a s.effects))
unfolding retry_release
retry-attempts st a zero last s h = inr (ground arith, omega arith, refl)
retry-attempts st a (suc n) last s h = elim (Option-cases (st.release_slot s.effects a)) [
  | inl e ↦
      rw (e, retry_release) (inl (refl, ground arith, ground arith, ground (arith, e, beq_refl a)))
  | inr (err, e) ↦
      rw (e, retry_release)
        (ground (
          arith,
          e,
          beq_refl a,
          retry-attempts st a n (some err)
              (if ltb 0 n
                then emit Effect.retry_gap (emit (Effect.release_slot a) s)
                else emit (Effect.release_slot a) s)
              (inl refl),
        ))
]

-- The effects of `t` are those of `s` with others after them.
abbrev pub Extends : List Effect → List Effect → Type 0
Extends xs ys = (post : List Effect) × (ys ≡ post ++ xs)

Extends-trans : (xs ys zs : List Effect) → Extends xs ys → Extends ys zs → Extends xs zs
Extends-trans xs ys zs (p, e) (q, f) =
    (q ++ p, f ∙ (ap (λ l. q ++ l) e ∙ sym (append_assoc q p xs)))

retry-Extends :
    (st : SlotStation) (a n : ℕ) (last : Option LeaseError) (s : Leaser)
    → Extends s.effects (retry_release st a n last s).0.effects
unfolding retry_release
retry-Extends st a zero last s = ([], refl)
retry-Extends st a (suc n) last s = elim (Option-cases (st.release_slot s.effects a)) [
  | inl e ↦ rw (e, retry_release) (Effect.release_slot a ∷ [], refl)
  | inr (err, e) ↦ elim (Bool-cases (ltb 0 n)) [
    | inl p ↦
        rw (e, retry_release)
          (rw p (
            Extends-trans s.effects (Effect.retry_gap ∷ Effect.release_slot a ∷ s.effects) _
              (Effect.retry_gap ∷ Effect.release_slot a ∷ [], refl)
              (retry-Extends st a n (some err) _)))
    | inr p ↦
        rw (e, retry_release)
          (rw p (
            Extends-trans s.effects (Effect.release_slot a ∷ s.effects) _
              (Effect.release_slot a ∷ [], refl) (retry-Extends st a n (some err) _)))
  ]
]

retry-pending :
    (st : SlotStation) (a n : ℕ) (last : Option LeaseError) (s : Leaser)
    → (retry_release st a n last s).0.release_pending ≡ s.release_pending
unfolding retry_release
retry-pending st a zero last s = refl
retry-pending st a (suc n) last s = grind (arith, retry-pending st a n)

module _ (c : Components) where
  -- A slot whose address has a lease is left alone: no stop, no release, only a stale mark goes.
  pub stop_and_release_leased :
      (a : ℕ) (reason : ReleaseReason) (s : Leaser)
      → has a s.leases ≡ true
      → stop_and_release c a reason s ≡ record s { releasing = erase a s.releasing }
  unfolding stop_and_release release_aborted_by_reuse
  stop_and_release_leased a reason s h = rw h refl

  estop-leases : (a : ℕ) (s : Leaser) → (estop_before_release c a s).leases ≡ s.leases
  estop-leases a s = ap (λ (x : Leaser). x.leases) (core-estop c a s)

  -- The release of a slot without a lease: e-stop, then the release with its retries.
  stop_and_release_unleased :
      (a : ℕ) (reason : ReleaseReason) (s : Leaser)
      → lookup a s.leases ≡ none
      → stop_and_release c a reason s
        ≡ settle_release a reason (release_slot_with_retry c a (estop_before_release c a s))
  unfolding stop_and_release release_aborted_by_reuse
  stop_and_release_unleased a reason s h = ground (arith, estop-leases a s)

  retried :
      (a : ℕ) (s : Leaser) (st : SlotStation)
      → lookup a s.leases ≡ none
      → c.station ≡ some st
      → release_slot_with_retry c a s ≡ retry_release st a slot_release_retry_count none s
  unfolding release_slot_with_retry release_aborted_by_reuse
  retried a s st h e = ground arith

  broadcast-Extends :
      (a : ℕ) (forward : Bool) (s : Leaser)
      → Extends s.effects (broadcast_stop c a forward s).effects
  unfolding broadcast_stop
  broadcast-Extends a forward s = elim (Option-cases c.store) [
    | inl e ↦ rw (e, broadcast_stop) ([], refl)
    | inr (st, e) ↦ elim (Bool-cases c.hub) [
      | inl h ↦ rw (e, broadcast_stop) (rw h (Effect.store_and_broadcast a 0 forward ∷ [], refl))
      | inr h ↦ rw (e, broadcast_stop) (rw h ([], refl))
    ]
  ]

  write-Extends :
      (a : ℕ) (forward : Bool) (s : Leaser)
      (w : List Effect → ℕ → ℕ → Bool → Bool → Option SpeedError)
      → c.writer ≡ some w
      → Extends (Effect.set_speed a 0 forward true ∷ s.effects) (write_stop c a forward s).effects
  unfolding write_stop
  write-Extends a forward s w e = elim (Bool-cases (is_failure (w s.effects a 0 forward true))) [
    | inl h ↦ rw (e, write_stop) (rw h (Effect.stop_grace ∷ [], refl))
    | inr h ↦ rw (e, write_stop) (rw h ([], refl))
  ]

  settle-Extends :
      (a : ℕ) (reason : ReleaseReason) (r : Leaser × Option LeaseError)
      → Extends r.0.effects (settle_release a reason r).effects
  unfolding settle_release
  settle-Extends a reason (s, none) =
      (Effect.notify_diag ∷ Effect.metric (Metric.released reason) ∷ [], refl)
  settle-Extends a reason (s, some err) =
      (Effect.notify_diag ∷ Effect.metric Metric.release_pending ∷ Effect.notify_diag ∷ [], refl)

  -- The direction in which the locomotive is stopped.
  abbrev pub stop_direction : ℕ → Leaser → Bool
  stop_direction a s = stored_forward c a (emit (Effect.metric Metric.release_estop) s)

  estop-Extends :
      (a : ℕ) (s : Leaser) (w : List Effect → ℕ → ℕ → Bool → Bool → Option SpeedError)
      → c.writer ≡ some w
      → Extends
          (Effect.set_speed a 0 (stop_direction a s) true
            ∷ Effect.metric Metric.release_estop
            ∷ s.effects)
          (estop_before_release c a s).effects
  unfolding estop_before_release
  estop-Extends a s w e =
      Extends-trans _ _ _
        (write-Extends a (stop_direction a s) (emit (Effect.metric Metric.release_estop) s) w e)
        (broadcast-Extends a (stop_direction a s) _)

  estop-releases :
      (a : ℕ) (s : Leaser)
      → releases_of a (estop_before_release c a s).effects ≡ releases_of a s.effects
  unfolding estop_before_release write_stop broadcast_stop
  estop-releases a s = ground arith

  estop-taken :
      (st : SlotStation) (a : ℕ) (s : Leaser)
      → taken_of st a (estop_before_release c a s).effects ≡ taken_of st a s.effects
  unfolding estop_before_release write_stop broadcast_stop
  estop-taken st a s = ground arith

  estop-pending :
      (a : ℕ) (s : Leaser) → (estop_before_release c a s).release_pending ≡ s.release_pending
  unfolding estop_before_release write_stop broadcast_stop
  estop-pending a s = ground arith

  unstationed :
      (a : ℕ) (s : Leaser)
      → lookup a s.leases ≡ none
      → c.station ≡ none
      → release_slot_with_retry c a s ≡ (s, none)
  unfolding release_slot_with_retry release_aborted_by_reuse
  unstationed a s h e = ground arith

  with_retry-Extends :
      (a : ℕ) (s : Leaser)
      → lookup a s.leases ≡ none
      → Extends s.effects (release_slot_with_retry c a s).0.effects
  unfolding release_slot_with_retry release_aborted_by_reuse
  with_retry-Extends a s h = elim (Option-cases c.station) [
    | inl e ↦ rw (unstationed a s h e) ([], refl)
    | inr (st, e) ↦ rw (retried a s st h e) (retry-Extends st a slot_release_retry_count none s)
  ]

  -- What the end of a release writes.
  settled :
      (st : SlotStation) (a : ℕ) (reason : ReleaseReason) (r : Leaser × Option LeaseError)
      → let t = settle_release a reason r in
        (releases_of a t.effects ≡ releases_of a r.0.effects)
        × (taken_of st a t.effects ≡ taken_of st a r.0.effects)
        × (t.release_pending
            ≡ (if is_some r.1 then insert a tt r.0.release_pending else r.0.release_pending))
  unfolding settle_release
  settled st a reason (s, none) = (refl, refl, refl)
  settled st a reason (s, some err) = (refl, refl, refl)

  -- Where an address has no lease and there is a writer, the release begins by counting an e-stop and
  -- commanding the locomotive to speed 0 as an emergency, in its stored direction: whatever else it
  -- does, each request to release the slot among it, comes after.
  pub stop_and_release-stops_first :
      (a : ℕ) (reason : ReleaseReason) (s : Leaser)
      (w : List Effect → ℕ → ℕ → Bool → Bool → Option SpeedError)
      → lookup a s.leases ≡ none
      → c.writer ≡ some w
      → Extends
          (Effect.set_speed a 0 (stop_direction a s) true
            ∷ Effect.metric Metric.release_estop
            ∷ s.effects)
          (stop_and_release c a reason s).effects
  stop_and_release-stops_first a reason s w h e = rw (stop_and_release_unleased a reason s h) (
      Extends-trans _ _ _ (estop-Extends a s w e) (
        Extends-trans _ _ _
          (with_retry-Extends a (estop_before_release c a s) (ap (lookup a) (estop-leases a s) ∙ h))
          (settle-Extends a reason (release_slot_with_retry c a (estop_before_release c a s)))))

  -- Where an address has no lease and there is a command station, the release asks it between one
  -- and three times to release the slot. Either it took one of these requests and refused the others,
  -- and the set of releases to be retried is as it was, or it refused all three, and the address is now
  -- in that set.
  pub stop_and_release-outcome :
      (a : ℕ) (reason : ReleaseReason) (s : Leaser) (st : SlotStation)
      → lookup a s.leases ≡ none
      → c.station ≡ some st
      → let t = stop_and_release c a reason s in
        let asked = releases_of a s.effects in
        ((t.release_pending ≡ s.release_pending)
          × (asked < releases_of a t.effects)
          × (releases_of a t.effects ≤ asked + slot_release_retry_count)
          × (taken_of st a t.effects ≡ taken_of st a s.effects + 1))
        ⊎ ((t.release_pending ≡ insert a tt s.release_pending)
            × (releases_of a t.effects ≡ asked + slot_release_retry_count)
            × (taken_of st a t.effects ≡ taken_of st a s.effects))
  stop_and_release-outcome a reason s st h e =
      let s1 = estop_before_release c a s in
      let r = retry_release st a slot_release_retry_count none s1 in
      rw (stop_and_release_unleased a reason s h) (
        rw (retried a s1 st (ap (lookup a) (estop-leases a s) ∙ h) e) (
          ground (
            arith,
            settled st a reason r,
            retry-attempts st a slot_release_retry_count none s1 (inr (omega arith)),
            retry-pending st a slot_release_retry_count none s1,
            estop-releases a s,
            estop-taken st a s,
            estop-pending a s,
          )))
