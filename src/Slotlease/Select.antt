-- ===== src/Slotlease/Select.antt =====
-- leaser.go: `Select`, `SelectTrain`, `Touch` and `DrivenAddrs`. `Select` gives up `mu` while the
-- command station acquires the slot, so its two halves are separate steps: other steps may come
-- between them.
use bigfred.Base.{
  ℕ, ◌+◌, Bool, true, false, not, ◌&&◌, String, Option, none, some, List, [], ◌∷◌, ◌++◌, Map,
  lookup, insert, has, length, ltb, ◌==◌, nat_key, string_key, if◌then◌else◌, maybe,
}
use bigfred.Slotlease.Types.{
  HolderKey, Lease, Leaser, Effect, Metric, ReleaseReason, LeaseError, Components, holder_key,
  unset, switcher_change, no_free_slot, budget_exceeded, vehicle_cap_exceeded, not_allowed,
  lease_train,
}
use bigfred.Slotlease.Ledger.{emit, put_lease, drop_lease, occupies_slot, remove_holder}
use bigfred.Slotlease.Release.{stop_and_release}
use bigfred.Slotlease.Reserve.{reserve, deselect, ensure_budget_headroom, gate_allows}

-- Whether `Select` has to acquire the slot itself.
unfoldable pub needs_acquire : Lease → Bool
needs_acquire le = length le.holders == 1 && (not le.acquiring && le.acquired_at == 0)

-- The second critical section of `Select`: marks the lease as being acquired.
unfoldable pub begin_acquire : ℕ → Leaser → Leaser × Bool
begin_acquire a s = elim (lookup a s.leases) [
  | none ↦ (s, false)
  | some le ↦
      if needs_acquire le
      then (put_lease (record le { acquiring = true }) a s, true)
      else (s, false)
]

-- `if reason == "" { reason = ReleaseSwitcherChange }`
unfoldable pub or_switcher_change : ReleaseReason → ReleaseReason
or_switcher_change unset = switcher_change
or_switcher_change reason = reason

abbrev pub is_no_free_slot : LeaseError → Bool
is_no_free_slot no_free_slot = true
is_no_free_slot e = false

-- The lease with the marks of the acquisition cleared.
abbrev pub acquire_done : Lease → Lease
acquire_done le = record le {
  acquiring = false;
  release_after = false;
  pending_release_reason = unset;
}

-- The end of `Select` after an acquisition that failed: `le` is the lease with its marks cleared.
unfoldable pub acquire_failed : Lease → HolderKey → ℕ → LeaseError → Leaser → Leaser
acquire_failed le key a err s =
    let (le1, s1, _) = remove_holder le key s in
    let s2 = if length le1.holders == 0 then drop_lease a s1 else put_lease le1 a s1 in
    let s3 = emit Effect.notify_diag s2 in
    if is_no_free_slot err then emit (Effect.metric Metric.no_free_slot) s3 else s3

-- How many members have no slot on the command station.
unfoldable pub new_slots : Map ℕ Lease → List ℕ → ℕ
new_slots leases [] = 0
new_slots leases (a ∷ rest) =
    (if maybe true (λ le. not (occupies_slot le)) (lookup a leases) then 1 else 0)
    + new_slots leases rest

-- The loop of `SelectTrain` that marks the members' leases.
unfoldable pub mark_train : String → List ℕ → Leaser → Leaser
mark_train train [] s = s
mark_train train (a ∷ rest) s = mark_train train rest (elim (lookup a s.leases) [
  | none ↦ s
  | some le ↦ put_lease (record le { kind = lease_train; train_id = train }) a s
])

module _ (c : Components) where
  -- The call of the command station; nothing is acquired with a nil station.
  unfoldable pub call_acquire : ℕ → Leaser → Leaser × Option LeaseError
  call_acquire a s = elim c.station [
    | none ↦ (s, none)
    | some st ↦ (emit (Effect.acquire_slot a) s, st.acquire_slot s.effects a)
  ]

  -- The end of `Select` after an acquisition that succeeded.
  unfoldable pub acquire_succeeded : Lease → String → ℕ → ℕ → Leaser → Leaser
  acquire_succeeded le source a now s =
      let s1 = put_lease (record (acquire_done le) { acquired_at = now }) a s in
      let s2 = emit Effect.notify_diag (emit (Effect.metric (Metric.leased source)) s1) in
      if le.release_after
      then stop_and_release c a (or_switcher_change le.pending_release_reason) s2
      else s2

  -- The third critical section of `Select` and what follows it, on the answer of the station.
  unfoldable pub finish_acquire : HolderKey → ℕ → Option LeaseError → ℕ → Leaser → Leaser
  finish_acquire key a answer now s = elim (lookup a s.leases) [
    | none ↦ s
    | some le ↦ elim answer [
      | some err ↦ acquire_failed (acquire_done le) key a err (put_lease (acquire_done le) a s)
      | none ↦ acquire_succeeded le key.source a now s
    ]
  ]

  -- `Select` after a `Reserve` that succeeded, with nothing between its halves.
  unfoldable pub select_reserved : HolderKey → ℕ → ℕ → ℕ → Leaser → Leaser × ℕ × Option LeaseError
  select_reserved key a evicted now s =
      let (s1, need_acquire) = begin_acquire a s in
      if need_acquire
      then (let (s2, answer) = call_acquire a s1 in
          (finish_acquire key a answer now s2, evicted, answer))
      else (s1, evicted, none)

  unfoldable pub select : ℕ → String → String → ℕ → ℕ → Leaser → Leaser × ℕ × Option LeaseError
  select u session source a now s =
      let (s1, evicted, err) = reserve c u session source a now s in
      elim err [
        | some e ↦ (s1, evicted, some e)
        | none ↦
            select_reserved (record { user_id = u; session = session; source = source }) a evicted
              now s1
      ]

  -- The rollback of `SelectTrain`.
  unfoldable pub deselect_all : ℕ → String → List ℕ → ℕ → Leaser → Leaser
  deselect_all u session [] now s = s
  deselect_all u session (a ∷ rest) now s =
      deselect_all u session rest now (deselect c u session a now s)

  -- The loop of `SelectTrain`; `acquired` are the members selected so far, in order.
  unfoldable pub select_members :
      ℕ → String → String → List ℕ → List ℕ → ℕ → Leaser → Leaser × Option LeaseError
  select_members u session source acquired [] now s = (s, none)
  select_members u session source acquired (a ∷ rest) now s = elim (gate_allows c u a) [
    | false ↦ (
      deselect_all u session acquired now (emit (Effect.metric Metric.not_allowed) s),
      some not_allowed,
    )
    | true ↦
        let (s1, _, err) = select u session source a now s in
        elim err [
          | some e ↦ (deselect_all u session acquired now s1, some e)
          | none ↦ select_members u session source (acquired ++ a ∷ []) rest now s1
        ]
  ]

  unfoldable pub select_train_within :
      ℕ → String → String → String → List ℕ → ℕ → Leaser → Leaser × Option LeaseError
  select_train_within u session source train addrs now s =
      let (s1, err) = select_members u session source [] addrs now s in
      elim err [
        | some e ↦ (s1, some e)
        | none ↦ (
          mark_train train addrs (record s1 {
            trains = insert train (record { train_id = train; addrs = addrs }) s1.trains;
          }),
          none,
        )
      ]

  -- The budget check of `SelectTrain`.
  unfoldable pub train_budget : List ℕ → Leaser → Leaser × Bool
  train_budget addrs s =
      if ltb 0 s.max_slots then ensure_budget_headroom c (new_slots s.leases addrs) s else (s, true)

  unfoldable pub select_train :
      ℕ → String → String → String → List ℕ → ℕ → Leaser → Leaser × Option LeaseError
  select_train u session source train addrs now s =
      if length addrs == 0
      then (s, none)
      else if ltb s.max_per_user (maybe 0 (λ k. k) (lookup u s.per_user) + length addrs)
      then (s, some vehicle_cap_exceeded)
      else (let (s1, room) = train_budget addrs s in
          if room
          then select_train_within u session source train addrs now s1
          else (emit (Effect.metric Metric.budget_exceeded) s1, some budget_exceeded))

-- The key that `Touch` refreshes: a holder of the user and session, or the key with no source.
unfoldable pub touch_key : ℕ → String → Map HolderKey (Unit {0}) → HolderKey
touch_key u session [] = record { user_id = u; session = session; source = "" }
touch_key u session ((k, _) ∷ hs) =
    if k.user_id == u && k.session == session then k else touch_key u session hs

unfoldable pub touch : ℕ → String → ℕ → ℕ → Leaser → Leaser
touch u session a now s = elim (lookup a s.leases) [
  | none ↦ s
  | some le ↦
      let key = touch_key u session le.holders in
      if has key le.holders
      then emit Effect.notify_diag
          (put_lease (record le { last_drive_at = insert key now le.last_drive_at }) a s)
      else s
]
