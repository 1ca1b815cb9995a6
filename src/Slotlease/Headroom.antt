-- ===== src/Slotlease/Headroom.antt =====
-- ensureBudgetHeadroomLocked: what it may take, what its answer means, and when it gives up.
use bigfred.Base.{
  ℕ, zero, suc, ◌+◌, ◌≡◌, ◌≢◌, refl, ap, ◌∙◌, Bool, ◌||◌, some, List, [], ◌∷◌, Bool-cases, inl, inr,
  leb, lookup, ◌==◌, nat_key, string_key,
}
use bigfred.Slotlease.Types.{
  Lease, Leaser, Components, Effect, holder_key, grace_evict, ReleaseReason,
}
use bigfred.Slotlease.Ledger.{emit, budget_active}
use bigfred.Slotlease.Consistency.{IsConsistent, core-IsConsistent}
use bigfred.Slotlease.Untouched.{core, core-enqueue_release}
use bigfred.Slotlease.Release.{enqueue_release}
use bigfred.Slotlease.Reserve.{
  take_deferred_releases, mark_releasing, enqueue_all, evict_grace, after_take, headroom_loop,
  ensure_budget_headroom, default_grace_evict_max,
}
use bigfred.Slotlease.Grace.{take_deferred_releases-IsConsistent, take_deferred_releases-held}

core-mark_releasing : (out : List ℕ) (s : Leaser) → core (mark_releasing out s) ≡ core s
unfolding mark_releasing
core-mark_releasing [] s = refl
core-mark_releasing (a ∷ out) s = core-mark_releasing out _

module _ (c : Components) where
  core-enqueue_all :
      (out : List ℕ) (reason : ReleaseReason) (s : Leaser)
      → core (enqueue_all c out reason s) ≡ core s
  unfolding enqueue_all
  core-enqueue_all [] reason s = refl
  core-enqueue_all (a ∷ out) reason s =
      core-enqueue_all out reason (enqueue_release c a reason s) ∙ core-enqueue_release c a reason s

  pub core-evict_grace : (out : List ℕ) (s : Leaser) → core (evict_grace c out s) ≡ core s
  unfolding evict_grace
  core-evict_grace out s =
      core-enqueue_all out grace_evict (emit Effect.notify_diag (mark_releasing out s))
      ∙ core-mark_releasing out s

  after_take-keeps {ℓ} :
      (P : Leaser → Type ℓ)
      → ((s t : Leaser) → core t ≡ core s → P s → P t)
      → (next : Leaser → Leaser × Bool) → ((s : Leaser) → P s → P (next s).0)
      → (r : Leaser × List ℕ) → P r.0
      → P (after_take c next r).0
  unfolding after_take
  after_take-keeps P same next keeps (s, []) p = p
  after_take-keeps P same next keeps (s, a ∷ rest) p =
      keeps (evict_grace c (a ∷ rest) s)
        (same s (evict_grace c (a ∷ rest) s) (core-evict_grace (a ∷ rest) s) p)

  -- A rule for the loop: what holds at the start and survives an eviction holds at the end.
  pub headroom_loop-keeps {ℓ} :
      (P : Leaser → Type ℓ)
      → ((s : Leaser) → P s → P (take_deferred_releases 1 s).0)
      → ((s t : Leaser) → core t ≡ core s → P s → P t)
      → (n needed : ℕ) (s : Leaser) → P s
      → P (headroom_loop c n needed s).0
  unfolding headroom_loop
  headroom_loop-keeps P take same zero needed s p = p
  headroom_loop-keeps P take same (suc n) needed s p =
      elim (Bool-cases (leb (budget_active s + needed) s.max_slots)) [
        | inl e ↦ rw (e, headroom_loop) p
        | inr e ↦
            rw (e, headroom_loop)
              (after_take-keeps P same (headroom_loop c n needed)
                (headroom_loop-keeps P take same n needed) (take_deferred_releases 1 s) (take s p))
      ]

  pub ensure_budget_headroom-keeps {ℓ} :
      (P : Leaser → Type ℓ)
      → ((s : Leaser) → P s → P (take_deferred_releases 1 s).0)
      → ((s t : Leaser) → core t ≡ core s → P s → P t)
      → (needed : ℕ) (s : Leaser) → P s
      → P (ensure_budget_headroom c needed s).0
  unfolding ensure_budget_headroom
  ensure_budget_headroom-keeps P take same needed s p =
      elim (Bool-cases (s.max_slots == 0 || needed == 0)) [
        | inl e ↦ rw e p
        | inr e ↦ rw e (headroom_loop-keeps P take same default_grace_evict_max needed s p)
      ]

  pub ensure_budget_headroom-IsConsistent :
      (needed : ℕ) (s : Leaser)
      → IsConsistent s
      → IsConsistent (ensure_budget_headroom c needed s).0
  ensure_budget_headroom-IsConsistent =
      ensure_budget_headroom-keeps IsConsistent (take_deferred_releases-IsConsistent 1)
        core-IsConsistent

  -- In a consistent ledger, a lease that somebody holds stays as it is, whatever the budget asks
  -- for.
  pub ensure_budget_headroom-held :
      (b : ℕ) (le : Lease) (needed : ℕ) (s : Leaser)
      → IsConsistent s
      → lookup b s.leases ≡ some le
      → le.holders ≢ []
      → lookup b (ensure_budget_headroom c needed s).0.leases ≡ some le
  ensure_budget_headroom-held b le needed s v e n =
      (ensure_budget_headroom-keeps (λ t. IsConsistent t × (lookup b t.leases ≡ some le))
        (λ t p. (
          take_deferred_releases-IsConsistent 1 t p.0,
          take_deferred_releases-held b le 1 t p.0.distinct p.1 n,
        ))
        (λ t t' q p. (core-IsConsistent t t' q p.0, rw (ap (λ (x : Leaser). x.leases) q) p.1))
        needed s (v, e)).1
