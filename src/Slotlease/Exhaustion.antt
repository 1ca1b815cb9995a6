-- ===== src/Slotlease/Exhaustion.antt =====
-- ensureBudgetHeadroomLocked: what its answer means, and when it gives up.
use bigfred.Base.{
  ℕ, zero, suc, ◌+◌, ◌≡◌, ◌≢◌, ◌⊎◌, refl, sym, ap, Bool, true, false, ◌||◌, ◌≤◌, ◌<◌, List, [], ◌∷◌,
  Map, arith, Bool-cases, inl, inr, if◌then◌else◌, ltb, leb, erase, total, Distinct, ◌==◌, nat_key,
  string_key, total-erase, length, beq_ne, All, All-map,
}
use bigfred.Slotlease.Types.{Lease, Leaser, Components, holder_key}
use bigfred.Slotlease.Ledger.{drop_lease, budget_active}
use bigfred.Slotlease.Consistency.{IsConsistent, core-IsConsistent}
use bigfred.Slotlease.Untouched.{core}
use bigfred.Slotlease.Reserve.{
  candidates, insert_newest, sort_newest, take_chosen, take_deferred_releases, evict_grace,
  after_take, headroom_loop, ensure_budget_headroom, default_grace_evict_max,
}
use bigfred.Slotlease.Grace.{
  InGrace, candidates-InGrace, sort_newest-All, take_deferred_releases-IsConsistent,
}
use bigfred.Slotlease.Headroom.{core-evict_grace}

abbrev grace_weight : Lease → ℕ
grace_weight le = if le.release_at == 0 || ltb 0 (length le.holders) then 0 else 1

-- How many leases are in their grace window.
abbrev pub grace_count : Leaser → ℕ
grace_count s = length (candidates s.leases)

length-candidates : (m : Map ℕ Lease) → length (candidates m) ≡ total grace_weight m
unfolding candidates total
length-candidates [] = refl
length-candidates ((a, le) ∷ m) = ground (arith, length-candidates m)

-- No entry is newer.
abbrev pub IsNewest : ℕ × ℕ → List (ℕ × ℕ) → Type 0
IsNewest x = All λ y. y.1 ≤ x.1

-- The head of the sorted candidates is a newest one.
sort_newest-cases :
    (xs : List (ℕ × ℕ))
    → ((xs ≡ []) × (sort_newest xs ≡ []))
      ⊎ ((y : ℕ × ℕ) × (ys : List (ℕ × ℕ)) × (sort_newest xs ≡ y ∷ ys) × IsNewest y xs)
unfolding sort_newest insert_newest
sort_newest-cases [] = inl (refl, refl)
sort_newest-cases ((a, at) ∷ xs) = elim (sort_newest-cases xs) [
  | inl (p, q) ↦ inr ((a, at), [], rw q refl, (omega arith, rw p tt))
  | inr ((b, bt), ys, q, n) ↦ elim (Bool-cases (ltb at bt)) [
    | inl e ↦ inr ((b, bt), insert_newest (a, at) ys, rw q (rw e refl), (ground arith, n))
    | inr e ↦
        inr (
          (a, at),
          (b, bt) ∷ ys,
          rw q (rw e refl),
          (omega arith, All-map (λ z h. ground arith) xs n),
        )
  ]
]

-- In a consistent ledger, one attempt drops a newest lease in its grace window and answers its
-- address, or finds none and does nothing.
pub take_one :
    (s : Leaser)
    → IsConsistent s
    → ((candidates s.leases ≡ []) × (take_deferred_releases 1 s ≡ (s, [])))
      ⊎ ((x : ℕ × ℕ) × InGrace s.leases x
          × IsNewest x (candidates s.leases)
          × (take_deferred_releases 1 s ≡ (drop_lease x.0 s, x.0 ∷ [])))
unfolding take_deferred_releases take_chosen
take_one s v = elim (sort_newest-cases (candidates s.leases)) [
  | inl (p, q) ↦ inl (p, rw q refl)
  | inr (x, ys, q, n) ↦ inr (x, head q, n, rw q refl)
]
  where
    sorted : All (InGrace s.leases) (sort_newest (candidates s.leases))
    sorted =
        sort_newest-All (InGrace s.leases) (candidates s.leases)
          (candidates-InGrace s.leases v.distinct)

    head :
        {x : ℕ × ℕ} {ys : List (ℕ × ℕ)}
        → sort_newest (candidates s.leases) ≡ x ∷ ys
        → InGrace s.leases x
    head q = (rw q at sorted).0

grace_count-drop :
    (s : Leaser) (x : ℕ × ℕ)
    → Distinct s.leases
    → InGrace s.leases x
    → grace_count (drop_lease x.0 s) + 1 ≡ grace_count s
grace_count-drop s x d g = ground (
  arith,
  length-candidates s.leases,
  length-candidates (erase x.0 s.leases),
  total-erase grace_weight x.0 s.leases d,
  g.found,
  g.empty,
  g.at_eq,
  g.at_set,
)

grace_count-core : (s t : Leaser) → core t ≡ core s → grace_count t ≡ grace_count s
grace_count-core s t e = ap (λ (x : Leaser). grace_count x) e

module _ (c : Components) where
  evicted-IsConsistent :
      (x : ℕ × ℕ) (s : Leaser)
      → IsConsistent s
      → take_deferred_releases 1 s ≡ (drop_lease x.0 s, x.0 ∷ [])
      → IsConsistent (evict_grace c (x.0 ∷ []) (drop_lease x.0 s))
  evicted-IsConsistent x s v q =
      core-IsConsistent (drop_lease x.0 s) (evict_grace c (x.0 ∷ []) (drop_lease x.0 s))
        (core-evict_grace c (x.0 ∷ []) (drop_lease x.0 s))
        (rw q at (take_deferred_releases-IsConsistent 1 s v))

  after_take-none :
      (next : Leaser → Leaser × Bool) (s : Leaser) → after_take c next (s, []) ≡ (s, false)
  unfolding after_take
  after_take-none next s = refl

  after_take-some :
      (next : Leaser → Leaser × Bool) (a : ℕ) (s : Leaser)
      → after_take c next (s, a ∷ []) ≡ next (evict_grace c (a ∷ []) s)
  unfolding after_take
  after_take-some next a s = refl

  -- The answer is whether the slots fit in the end.
  headroom_loop-answer :
      (n needed : ℕ) (s : Leaser)
      → IsConsistent s
      → let r = headroom_loop c n needed s in r.1 ≡ leb (budget_active r.0 + needed) r.0.max_slots
  unfolding headroom_loop
  headroom_loop-answer zero needed s v = refl
  headroom_loop-answer (suc n) needed s v =
      elim (Bool-cases (leb (budget_active s + needed) s.max_slots)) [
        | inl e ↦ rw (e, headroom_loop) (sym e)
        | inr e ↦ elim (take_one s v) [
          | inl (p, q) ↦
              rw (e, headroom_loop)
                (rw q (rw (after_take-none (headroom_loop c n needed) s) (sym e)))
          | inr (x, g, w, q) ↦
              rw (e, headroom_loop)
                (rw q (
                  rw (after_take-some (headroom_loop c n needed) x.0 (drop_lease x.0 s)) (
                    headroom_loop-answer n needed (evict_grace c (x.0 ∷ []) (drop_lease x.0 s))
                      (evicted-IsConsistent x s v q))))
        ]
      ]

  headroom_loop-gives_up :
      (n needed : ℕ) (s : Leaser)
      → IsConsistent s
      → (headroom_loop c n needed s).1 ≡ false
      → (candidates (headroom_loop c n needed s).0.leases ≡ [])
        ⊎ (grace_count (headroom_loop c n needed s).0 + n ≡ grace_count s)
  unfolding headroom_loop
  headroom_loop-gives_up zero needed s v h = inr (omega arith)
  headroom_loop-gives_up (suc n) needed s v h =
      elim (Bool-cases (leb (budget_active s + needed) s.max_slots)) [
        | inl e ↦ absurd (cc (rw (e, headroom_loop) at h))
        | inr e ↦ elim (take_one s v) [
          | inl (p, q) ↦
              rw (e, headroom_loop)
                (rw q (rw (after_take-none (headroom_loop c n needed) s) (inl p)))
          | inr (x, g, w, q) ↦
              elim (headroom_loop-gives_up n needed (evict_grace c (x.0 ∷ []) (drop_lease x.0 s))
                (evicted-IsConsistent x s v q)
                (rw (after_take-some (headroom_loop c n needed) x.0 (drop_lease x.0 s)) at
                  (rw q at (rw (e, headroom_loop) at h)))) [
                    | inl p ↦
                        rw (e, headroom_loop)
                          (rw q (
                            rw (after_take-some (headroom_loop c n needed) x.0 (drop_lease x.0 s))
                              (inl p)))
                    | inr p ↦
                        rw (e, headroom_loop)
                          (rw q (
                            rw (after_take-some (headroom_loop c n needed) x.0 (drop_lease x.0 s)) (
                              inr (
                                omega (
                                  arith,
                                  p,
                                  grace_count-drop s x v.distinct g,
                                  grace_count-core (drop_lease x.0 s)
                                      (evict_grace c (x.0 ∷ []) (drop_lease x.0 s))
                                      (core-evict_grace c (x.0 ∷ []) (drop_lease x.0 s)),
                                )))))
                  ]
        ]
      ]

  -- In a consistent ledger, with a limit and slots to find: `true` is answered exactly when the
  -- slots fit within the limit in the end, and `false` only after every lease in its grace window
  -- is gone, or five of them.
  pub ensure_budget_headroom-answer :
      (needed : ℕ) (s : Leaser)
      → IsConsistent s
      → s.max_slots ≢ 0
      → needed ≢ 0
      → let r = ensure_budget_headroom c needed s in
        ((r.1 ≡ true) × (budget_active r.0 + needed ≤ r.0.max_slots))
        ⊎ ((r.1 ≡ false)
            × (r.0.max_slots < budget_active r.0 + needed)
            × ((grace_count r.0 ≡ 0) ⊎ (grace_count r.0 + default_grace_evict_max ≡ grace_count s)))
  unfolding ensure_budget_headroom
  ensure_budget_headroom-answer needed s v m n = rw (beq_ne s.max_slots 0 m) (
      rw (beq_ne needed 0 n) (
        ground (
          arith,
          headroom_loop-answer default_grace_evict_max needed s v,
          headroom_loop-gives_up default_grace_evict_max needed s v,
        )))
