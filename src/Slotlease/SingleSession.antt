-- ===== src/Slotlease/SingleSession.antt =====
-- The per-user cap of `Reserve`, for a user who drives from one session.
use bigfred.Base.{
  ℕ, ◌≡◌, ◌≢◌, ◌≤◌, ◌<◌, refl, ap, ◌∙◌, true, false, ◌&&◌, String, some, List, [], ◌∷◌, Map, arith,
  Bool-cases, Option-cases, inl, inr, ltb, lookup, maybe, Entries, Entries-lookup, erase-Entries,
  ◌==◌, nat_key, string_key,
}
use text.Mathlib.TextEquality.{eq_iff}
use bigfred.Slotlease.Types.{Lease, Leaser, HolderKey, Components, Effect, Metric, cap_evict}
use bigfred.Slotlease.Ledger.{
  emit, drop_lease, holder_count_for_user, find_holder, evictable_in, oldest_evictable_addr,
}
use bigfred.Slotlease.Reserve.{
  take_chosen, take_deferred_releases, gate_allows, reserve_budget, reserve_cap, reserve_within,
  reserve, sort_newest, candidates, needs_physical_slot,
}
use bigfred.Base.{take}
use bigfred.Slotlease.Counts.{per_user_of}
use bigfred.Slotlease.Untouched.{core}
use bigfred.Slotlease.Headroom.{ensure_budget_headroom-keeps}
use bigfred.Slotlease.Cap.{deselect_with-per_user, per_user_of-reserve_holder}
use bigfred.Slotlease.Consistency.{IsConsistent, count-le-per_user}
use bigfred.Slotlease.Consistency.Reserve.{reserve_budget-IsConsistent, reserve_cap-cases}

-- The address that the cap evicts is one that the user holds.
evictable_in_held :
    (u skip : ℕ) (leases : Map ℕ Lease) (order : List ℕ) (b : ℕ)
    → evictable_in u skip leases order ≡ some b
    → (le : Lease) × (lookup b leases ≡ some le) × (0 < holder_count_for_user u le.holders)
unfolding evictable_in
evictable_in_held u skip leases [] b h = cc
evictable_in_held u skip leases (a ∷ order) b h = elim (Bool-cases (a == skip)) [
  | inl p ↦ evictable_in_held u skip leases order b (rw (p, evictable_in) at h)
  | inr p ↦ elim (Option-cases (lookup a leases)) [
    | inl e ↦ evictable_in_held u skip leases order b (rw (p, e, evictable_in) at h)
    | inr (le, e) ↦ elim (Bool-cases (ltb 0 (holder_count_for_user u le.holders))) [
      | inl q ↦ (le, ground (arith, p, e, q), ground arith)
      | inr q ↦ evictable_in_held u skip leases order b (ground (arith, p, e, q))
    ]
  ]
]

oldest_evictable_held :
    (u skip : ℕ) (s : Leaser) (b : ℕ)
    → oldest_evictable_addr u skip s ≡ some b
    → (le : Lease) × (lookup b s.leases ≡ some le) × (0 < holder_count_for_user u le.holders)
unfolding oldest_evictable_addr
oldest_evictable_held u skip s b h =
    evictable_in_held u skip s.leases (maybe [] (λ l. l) (lookup u s.user_addr_order)) b h

-- The user's holders are all of the session.
abbrev pub IsSession : ℕ → String → Map HolderKey (Unit {0}) → Type 0
IsSession u session = Entries λ k x. k.user_id ≡ u → k.session ≡ session

abbrev pub SingleSession : ℕ → String → Map ℕ Lease → Type 0
SingleSession u session = Entries λ a le. IsSession u session le.holders

find_holder_session :
    (u : ℕ) (session : String) (hs : Map HolderKey (Unit {0}))
    → IsSession u session hs
    → u ≢ 0
    → 0 < holder_count_for_user u hs
    → ((find_holder u session hs).user_id == 0) ≡ false
unfolding find_holder holder_count_for_user
find_holder_session u session [] i n h = absurd (omega arith)
find_holder_session u session ((k, x) ∷ hs) i n h =
    ground (arith, i.0, eq_iff k.session session, find_holder_session u session hs i.1 n)

-- What the budget keeps of a ledger: the count, the cap, and the session of the user.
record IsWithin (u : ℕ) (session : String) (limit : ℕ) (s : Leaser) : Type 0 where
  count_le : per_user_of u s.per_user ≤ limit
  cap_eq : s.max_per_user ≡ limit
  single : SingleSession u session s.leases

module _ (u : ℕ) (session : String) (limit : ℕ) where
  take_chosen-IsWithin :
      (xs : List (ℕ × ℕ)) (s : Leaser)
      → IsWithin u session limit s
      → IsWithin u session limit (take_chosen xs s).0
  unfolding take_chosen
  take_chosen-IsWithin [] s w = w
  take_chosen-IsWithin ((a, at) ∷ xs) s w = take_chosen-IsWithin xs (drop_lease a s) (record {
    count_le = w.count_le;
    cap_eq = w.cap_eq;
    single = erase-Entries (λ b le. IsSession u session le.holders) a s.leases w.single;
  })

  take_deferred_releases-IsWithin :
      (s : Leaser)
      → IsWithin u session limit s
      → IsWithin u session limit (take_deferred_releases 1 s).0
  unfolding take_deferred_releases
  take_deferred_releases-IsWithin s w =
      take_chosen-IsWithin (take 1 (sort_newest (candidates s.leases))) s w

  core-IsWithin :
      (s t : Leaser) → core t ≡ core s → IsWithin u session limit s → IsWithin u session limit t
  core-IsWithin s t e w = record {
    count_le = rw (ap (λ (x : Leaser). x.per_user) e) w.count_le;
    cap_eq = ap (λ (x : Leaser). x.max_per_user) e ∙ w.cap_eq;
    single = rw (ap (λ (x : Leaser). x.leases) e) w.single;
  }

module _ (c : Components) (u : ℕ) (session : String) where
  reserve_budget-IsWithin :
      (limit a : ℕ) (s : Leaser)
      → IsWithin u session limit s
      → IsWithin u session limit (reserve_budget c a s).0
  unfolding reserve_budget
  reserve_budget-IsWithin limit a s w =
      elim (Bool-cases (ltb 0 s.max_slots && needs_physical_slot c a s)) [
        | inl e ↦ rw e (
            ensure_budget_headroom-keeps c (IsWithin u session limit)
              (take_deferred_releases-IsWithin u session limit) (core-IsWithin u session limit) 1 s
              w)
        | inr e ↦ rw e w
      ]

  -- Below the cap nothing is evicted; at the cap one holder leaves.
  reserve_cap-room :
      (limit a now : ℕ) (s t : Leaser) (evicted : ℕ)
      → u ≢ 0
      → IsConsistent s
      → IsWithin u session limit s
      → reserve_cap c u session a now s ≡ some (t, evicted)
      → per_user_of u t.per_user < limit
  reserve_cap-room limit a now s t evicted n v w e =
      elim (reserve_cap-cases c u session a now s t evicted e) [
        | inl (l, p, z) ↦ ground (arith, w.cap_eq)
        | inr (l, o, p) ↦
            let (le, there, held) = oldest_evictable_held u a s evicted o in
            let found = find_holder u session le.holders in
            ground (
              arith,
              w.count_le,
              w.cap_eq,
              find_holder_session u session le.holders
                  (Entries-lookup (λ b l. IsSession u session l.holders) evicted s.leases le
                    w.single there)
                  n held,
              count-le-per_user v evicted le u there n,
              deselect_with-per_user c u session evicted cap_evict false true now s le there,
            )
      ]

  reserve_within-count :
      (source : String) (limit a now : ℕ) (s : Leaser)
      → u ≢ 0
      → IsConsistent s
      → IsWithin u session limit s
      → per_user_of u (reserve_within c u session source a now s).0.per_user ≤ limit
  unfolding reserve_within
  reserve_within-count source limit a now s n v w =
      elim (Option-cases (reserve_cap c u session a now s)) [
        | inl e ↦ rw (e, reserve_within) w.count_le
        | inr ((t, evicted), e) ↦
            let key : HolderKey = record { user_id = u; session = session; source = source } in
            rw (e, reserve_within)
              (ground (
                arith,
                reserve_cap-room limit a now s t evicted n v w e,
                per_user_of-reserve_holder key a now t,
              ))
      ]

  -- In a consistent ledger, a user other than 0 whose holders are all of one session, and who is
  -- within the cap, is within it after a `Reserve` from that session too, whatever it answers.
  pub reserve-per_user-le :
      (source : String) (a now : ℕ) (s : Leaser)
      → u ≢ 0
      → IsConsistent s
      → SingleSession u session s.leases
      → per_user_of u s.per_user ≤ s.max_per_user
      → per_user_of u (reserve c u session source a now s).0.per_user ≤ s.max_per_user
  unfolding reserve
  reserve-per_user-le source a now s n v i l =
      let s1 = emit (Effect.metric (Metric.select source)) s in
      let w : IsWithin u session s.max_per_user s1 = record {
        count_le = l;
        cap_eq = refl;
        single = i;
      } in
      let r = reserve_budget c a s1 in
      let wr = reserve_budget-IsWithin s.max_per_user a s1 w in
      elim (Bool-cases (gate_allows c u a)) [
        | inr g ↦ rw (g, reserve) l
        | inl g ↦ elim (Bool-cases r.1) [
          | inr b ↦ rw (g, reserve) (rw b wr.count_le)
          | inl b ↦
              rw (g, reserve)
                (rw b (
                  reserve_within-count source s.max_per_user a now r.0 n
                    (reserve_budget-IsConsistent c a s1 v) wr))
        ]
      ]
