-- ===== src/Slotlease/Reserve.antt =====
-- leaser.go: `deselect`, the budget with its grace evictions, and `Reserve`.
use bigfred.Base.{
  ℕ, suc, zero, ◌+◌, Bool, true, false, not, ◌&&◌, ◌||◌, String, Option, none, some, List, [], ◌∷◌,
  ◌++◌, Map, lookup, insert, erase, has, length, take, ltb, leb, ◌==◌, nat_key, if◌then◌else◌,
  maybe,
}
use bigfred.Slotlease.Types.{
  HolderKey, Lease, Leaser, Effect, Metric, ReleaseReason, LeaseError, Components, holder_key,
  budget_exceeded, vehicle_cap_exceeded, not_allowed, cap_evict, switcher_change, grace_evict,
}
use bigfred.Slotlease.Ledger.{
  emit, new_lease, put_lease, drop_lease, occupies_slot, budget_active, append_user_addr,
  increment_user, find_holder, remove_holder, oldest_evictable_addr,
}
use bigfred.Slotlease.Release.{stop_and_release, enqueue_release}

-- defaultGraceEvictMax
abbrev pub default_grace_evict_max : ℕ
default_grace_evict_max = 5

-- The grace leases, with the time of their release: takeDeferredReleasesLocked's first loop.
unfoldable pub candidates : Map ℕ Lease → List (ℕ × ℕ)
candidates [] = []
candidates ((a, le) ∷ m) =
    let rest = candidates m in
    if le.release_at == 0 || ltb 0 (length le.holders) then rest else (a, le.release_at) ∷ rest

-- Newest first.
unfoldable pub insert_newest : ℕ × ℕ → List (ℕ × ℕ) → List (ℕ × ℕ)
insert_newest (a, at) [] = (a, at) ∷ []
insert_newest (a, at) ((b, bt) ∷ rest) =
    if ltb at bt then (b, bt) ∷ insert_newest (a, at) rest else (a, at) ∷ (b, bt) ∷ rest

unfoldable pub sort_newest : List (ℕ × ℕ) → List (ℕ × ℕ)
sort_newest [] = []
sort_newest (x ∷ xs) = insert_newest x (sort_newest xs)

-- The loop that deletes the chosen leases and lists their addresses.
unfoldable pub take_chosen : List (ℕ × ℕ) → Leaser → Leaser × List ℕ
take_chosen [] s = (s, [])
take_chosen ((a, _) ∷ rest) s = let (s1, out) = take_chosen rest (drop_lease a s) in (s1, a ∷ out)

unfoldable pub take_deferred_releases : ℕ → Leaser → Leaser × List ℕ
take_deferred_releases max s =
    if max == 0 then (s, []) else take_chosen (take max (sort_newest (candidates s.leases))) s

-- `l.releasing[addr] = struct{}{}` for each address.
unfoldable pub mark_releasing : List ℕ → Leaser → Leaser
mark_releasing [] s = s
mark_releasing (a ∷ rest) s = mark_releasing rest (record s { releasing = insert a tt s.releasing })

module _ (c : Components) where
  unfoldable pub enqueue_all : List ℕ → ReleaseReason → Leaser → Leaser
  enqueue_all [] reason s = s
  enqueue_all (a ∷ rest) reason s = enqueue_all rest reason (enqueue_release c a reason s)

  -- One attempt's eviction.
  unfoldable pub evict_grace : List ℕ → Leaser → Leaser
  evict_grace out s = enqueue_all out grace_evict (emit Effect.notify_diag (mark_releasing out s))

  -- The rest of an attempt: no grace lease ends the loop, `next` is its next round.
  unfoldable pub after_take : (Leaser → Leaser × Bool) → Leaser × List ℕ → Leaser × Bool
  after_take next (s, []) = (s, false)
  after_take next (s, a ∷ rest) = next (evict_grace (a ∷ rest) s)

  -- The loop of ensureBudgetHeadroomLocked, over the attempts left.
  unfoldable pub headroom_loop : ℕ → ℕ → Leaser → Leaser × Bool
  headroom_loop zero needed s = (s, leb (budget_active s + needed) s.max_slots)
  headroom_loop (suc n) needed s = elim (leb (budget_active s + needed) s.max_slots) [
    | true ↦ (s, true)
    | false ↦ after_take (headroom_loop n needed) (take_deferred_releases 1 s)
  ]

  unfoldable pub ensure_budget_headroom : ℕ → Leaser → Leaser × Bool
  ensure_budget_headroom needed s =
      if s.max_slots == 0 || needed == 0
      then (s, true)
      else headroom_loop default_grace_evict_max needed s

  -- The end of `deselect`, when the last holder has left a lease that is not being acquired.
  unfoldable pub close_lease : Lease → ℕ → ReleaseReason → Bool → Bool → ℕ → Leaser → Leaser
  close_lease le a reason deferred async now s =
      if deferred
      then emit Effect.notify_diag
          (put_lease (record le { release_at = now + s.switcher_grace }) a s)
      else if async
      then enqueue_release c a reason (
          emit Effect.notify_diag
            (record s { leases = erase a s.leases; releasing = insert a tt s.releasing }))
      else stop_and_release c a reason (emit Effect.notify_diag (drop_lease a s))

  -- What `deselect` does with the holder that it has found.
  unfoldable pub drop_found :
      Lease → HolderKey → ℕ → ReleaseReason → Bool → Bool → ℕ → Leaser → Leaser
  drop_found le found a reason deferred async now s =
      let (le1, s1, last) =
        remove_holder le found (emit (Effect.metric (Metric.deselect found.source)) s) in
      if le1.acquiring && last
      then emit Effect.notify_diag
          (put_lease (record le1 { release_after = true; pending_release_reason = reason }) a s1)
      else if last
      then close_lease le1 a reason deferred async now s1
      else emit Effect.notify_diag (put_lease le1 a s1)

  unfoldable pub deselect_with : ℕ → String → ℕ → ReleaseReason → Bool → Bool → ℕ → Leaser → Leaser
  deselect_with u session a reason deferred async now s = elim (lookup a s.leases) [
    | none ↦ emit (Effect.metric (Metric.deselect "_")) s
    | some le ↦
        let found = find_holder u session le.holders in
        if found.user_id == 0
        then emit (Effect.metric (Metric.deselect "_")) s
        else drop_found le found a reason deferred async now s
  ]

  unfoldable pub deselect : ℕ → String → ℕ → ℕ → Leaser → Leaser
  deselect u session a now s = deselect_with u session a switcher_change false false now s

  unfoldable pub deselect_deferred : ℕ → String → ℕ → ℕ → Leaser → Leaser
  deselect_deferred u session a now s = deselect_with u session a switcher_change true false now s

  -- The drive gate; a nil gate allows all.
  unfoldable pub gate_allows : ℕ → ℕ → Bool
  gate_allows u a = elim c.gate [ none ↦ true | some gate ↦ gate u a ]

  -- Whether `addr` has no slot on the command station yet.
  unfoldable pub needs_physical_slot : ℕ → Leaser → Bool
  needs_physical_slot a s = maybe true (λ le. not (occupies_slot le)) (lookup a s.leases)

  -- Reserve's budget check.
  unfoldable pub reserve_budget : ℕ → Leaser → Leaser × Bool
  reserve_budget a s =
      if ltb 0 s.max_slots && needs_physical_slot a s then ensure_budget_headroom 1 s else (s, true)

  -- Reserve's per-user cap: the ledger and the evicted address (0 for none), or `none` if the cap
  -- is exceeded.
  unfoldable pub reserve_cap : ℕ → String → ℕ → ℕ → Leaser → Option (Leaser × ℕ)
  reserve_cap u session a now s =
      if leb s.max_per_user (maybe 0 (λ k. k) (lookup u s.per_user))
      then elim (oldest_evictable_addr u a s) [
        | none ↦ none
        | some evict ↦ some (
          emit (Effect.metric Metric.cap_evict)
              (deselect_with u session evict cap_evict false true now s),
          evict,
        )
      ]
      else some (s, 0)

-- Reserve's cancellation of a background release.
unfoldable pub cancel_release : ℕ → ℕ → Lease × Leaser → Lease × Leaser
cancel_release a now (le, s) =
    if has a s.releasing
    then (
      (if le.acquired_at == 0 then record le { acquired_at = now } else le),
      record s { releasing = erase a s.releasing },
    )
    else (le, s)

-- Reserve's new holder, if the key is new.
unfoldable pub add_holder : HolderKey → ℕ → Lease × Leaser → Lease × Leaser
add_holder key a (le, s) = if has key le.holders then (le, s) else (
  record le { holders = insert key tt le.holders; holder_order = le.holder_order ++ key ∷ [] },
  append_user_addr key.user_id a (increment_user key.user_id s),
)

-- The end of `Reserve`, from the lookup of the lease on.
unfoldable pub reserve_holder : HolderKey → ℕ → ℕ → Leaser → Leaser
reserve_holder key a now s =
    let (le, s1) = cancel_release a now (maybe (new_lease a) (λ l. l) (lookup a s.leases), s) in
    let (le1, s2) = add_holder key a (record le { release_at = 0 }, s1) in
    emit Effect.notify_diag
      (put_lease (record le1 { last_drive_at = insert key now le1.last_drive_at }) a s2)

module _ (c : Components) where
  -- `Reserve` behind the gate and the budget.
  unfoldable pub reserve_within :
      ℕ → String → String → ℕ → ℕ → Leaser → Leaser × ℕ × Option LeaseError
  reserve_within u session source a now s = elim (reserve_cap c u session a now s) [
    | none ↦ (s, 0, some vehicle_cap_exceeded)
    | some (s1, evicted) ↦ (
      reserve_holder (record { user_id = u; session = session; source = source }) a now s1,
      evicted,
      none,
    )
  ]

  -- The new ledger, the evicted address and the error.
  unfoldable pub reserve : ℕ → String → String → ℕ → ℕ → Leaser → Leaser × ℕ × Option LeaseError
  reserve u session source a now s =
      let s1 = emit (Effect.metric (Metric.select source)) s in
      if gate_allows c u a
      then (let (s2, room) = reserve_budget c a s1 in
          if room
          then reserve_within u session source a now s2
          else (emit (Effect.metric Metric.budget_exceeded) s2, 0, some budget_exceeded))
      else (emit (Effect.metric Metric.not_allowed) s1, 0, some not_allowed)
