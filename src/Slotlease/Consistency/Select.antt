-- ===== src/Slotlease/Consistency/Select.antt =====
-- `Select`, its halves, `SelectTrain` and `Touch` keep the ledger consistent.
use bigfred.Base.{
  ℕ, ◌+◌, ◌≡◌, refl, ◌∙◌, Bool, true, false, String, Option, none, some, List, [], ◌∷◌, ◌++◌, arith,
  Bool-cases, Option-cases, inl, inr, ltb, has, lookup, ◌==◌, lookup-insert_self, nat_key,
  string_key, length,
}
use bigfred.Slotlease.Types.{
  Lease, Leaser, HolderKey, ReleaseReason, LeaseError, Components, holder_key, LeaseKind,
}
use bigfred.Slotlease.Ledger.{remove_holder, put_lease}
use bigfred.Slotlease.Counts.{per_user_of}
use bigfred.Slotlease.Reserve.{reserve, deselect, gate_allows}
use bigfred.Slotlease.Select.{
  begin_acquire, needs_acquire, acquire_done, acquire_failed, acquire_succeeded, call_acquire,
  finish_acquire, select_reserved, select, deselect_all, select_members, mark_train,
  select_train_within, select_train, train_budget, new_slots, touch, touch_key, or_switcher_change,
  is_no_free_slot,
}
use bigfred.Slotlease.Headroom.{ensure_budget_headroom-IsConsistent}
use bigfred.Slotlease.Consistency.{
  IsConsistent, lookup-IsSound, rewrite-Consistent, stop_and_release-IsConsistent,
}
use bigfred.Slotlease.Consistency.Holders.{Removed, remove_holder-Removed, length-eq-zero}
use bigfred.Slotlease.Consistency.Deselect.{
  put-IsConsistent, drop-IsConsistent, deselect_with-IsConsistent,
}
use bigfred.Slotlease.Consistency.Reserve.{reserve-IsConsistent}

-- A lease is written back with other fields than its address, its holders and its release time.
rewritten :
    (a : ℕ) (old le : Lease) (s : Leaser)
    → IsConsistent s
    → lookup a s.leases ≡ some old
    → le.addr ≡ old.addr
    → le.holders ≡ old.holders
    → le.release_at ≡ old.release_at
    → IsConsistent (put_lease le a s)
rewritten a old le s v e p q r =
    let w = lookup-IsSound v a old e in
    rewrite-Consistent v a old le e
      (record {
        addr_eq = p ∙ w.addr_eq;
        holders_distinct = rw q w.holders_distinct;
        grace_empty = rw (q, r) w.grace_empty;
      })
      q

pub begin_acquire-IsConsistent :
    (a : ℕ) (s : Leaser) → IsConsistent s → IsConsistent (begin_acquire a s).0
unfolding begin_acquire
begin_acquire-IsConsistent a s v = elim (Option-cases (lookup a s.leases)) [
  | inl e ↦ rw (e, begin_acquire) v
  | inr (le, e) ↦ elim (Bool-cases (needs_acquire le)) [
    | inl n ↦
        rw (e, begin_acquire)
          (rw n (rewritten a le (record le { acquiring = true }) s v e refl refl refl))
    | inr n ↦ rw (e, begin_acquire) (rw n v)
  ]
]

acquire_failed-IsConsistent :
    (le : Lease) (key : HolderKey) (a : ℕ) (err : LeaseError) (s : Leaser)
    → IsConsistent s
    → lookup a s.leases ≡ some le
    → IsConsistent (acquire_failed le key a err s)
unfolding acquire_failed
acquire_failed-IsConsistent le key a err s v e =
    go (length r.0.holders == 0) (is_no_free_slot err) refl refl
  where
    r : Lease × Leaser × Bool
    r = remove_holder le key s

    d : Removed a le s r
    d = remove_holder-Removed a le key s v e

    go :
        (b n : Bool)
        → (length r.0.holders == 0) ≡ b
        → is_no_free_slot err ≡ n
        → IsConsistent (acquire_failed le key a err s)
    go true true p q =
        rw (p, q, acquire_failed)
          (drop-IsConsistent v e r d (length-eq-zero r.0.holders (ground arith)))
    go true false p q =
        rw (p, q, acquire_failed)
          (drop-IsConsistent v e r d (length-eq-zero r.0.holders (ground arith)))
    go false true p q = rw (p, q, acquire_failed) (put-IsConsistent v e r d r.0 d.is_sound refl)
    go false false p q = rw (p, q, acquire_failed) (put-IsConsistent v e r d r.0 d.is_sound refl)

module _ (c : Components) where
  call_acquire-IsConsistent :
      (a : ℕ) (s : Leaser) → IsConsistent s → IsConsistent (call_acquire c a s).0
  unfolding call_acquire
  call_acquire-IsConsistent a s v = elim (Option-cases c.station) [
    | inl e ↦ rw (e, call_acquire) v
    | inr (st, e) ↦ rw (e, call_acquire) v
  ]

  acquire_succeeded-IsConsistent :
      (le : Lease) (source : String) (a now : ℕ) (s : Leaser)
      → IsConsistent s
      → lookup a s.leases ≡ some le
      → IsConsistent (acquire_succeeded c le source a now s)
  unfolding acquire_succeeded
  acquire_succeeded-IsConsistent le source a now s v e =
      let w =
        rewritten a le (record (acquire_done le) { acquired_at = now }) s v e refl refl refl in
      elim (Bool-cases le.release_after) [
        | inl p ↦
            rw p
              (stop_and_release-IsConsistent c a (or_switcher_change le.pending_release_reason) _ w)
        | inr p ↦ rw p w
      ]

  pub finish_acquire-IsConsistent :
      (key : HolderKey) (a : ℕ) (answer : Option LeaseError) (now : ℕ) (s : Leaser)
      → IsConsistent s
      → IsConsistent (finish_acquire c key a answer now s)
  unfolding finish_acquire
  finish_acquire-IsConsistent key a none now s v = elim (Option-cases (lookup a s.leases)) [
    | inl e ↦ rw (e, finish_acquire) v
    | inr (le, e) ↦
        rw (e, finish_acquire) (acquire_succeeded-IsConsistent le key.source a now s v e)
  ]
  finish_acquire-IsConsistent key a (some err) now s v = elim (Option-cases (lookup a s.leases)) [
    | inl e ↦ rw (e, finish_acquire) v
    | inr (le, e) ↦
        rw (e, finish_acquire)
          (acquire_failed-IsConsistent (acquire_done le) key a err (put_lease (acquire_done le) a s)
            (rewritten a le (acquire_done le) s v e refl refl refl)
            (lookup-insert_self a (acquire_done le) s.leases))
  ]

  pub select_reserved-IsConsistent :
      (key : HolderKey) (a evicted now : ℕ) (s : Leaser)
      → IsConsistent s
      → IsConsistent (select_reserved c key a evicted now s).0
  unfolding select_reserved
  select_reserved-IsConsistent key a evicted now s v =
      let v1 = begin_acquire-IsConsistent a s v in
      elim (Bool-cases (begin_acquire a s).1) [
        | inl p ↦ rw p (
            finish_acquire-IsConsistent key a (call_acquire c a (begin_acquire a s).0).1 now
              (call_acquire c a (begin_acquire a s).0).0
              (call_acquire-IsConsistent a (begin_acquire a s).0 v1))
        | inr p ↦ rw p v1
      ]

  pub select-IsConsistent :
      (u : ℕ) (session source : String) (a now : ℕ) (s : Leaser)
      → IsConsistent s
      → IsConsistent (select c u session source a now s).0
  unfolding select
  select-IsConsistent u session source a now s v =
      let v1 = reserve-IsConsistent c u session source a now s v in
      elim (Option-cases (reserve c u session source a now s).2) [
        | inl e ↦ rw (e, select) (select_reserved-IsConsistent _ a _ now _ v1)
        | inr (err, e) ↦ rw (e, select) v1
      ]

  deselect_all-IsConsistent :
      (u : ℕ) (session : String) (addrs : List ℕ) (now : ℕ) (s : Leaser)
      → IsConsistent s
      → IsConsistent (deselect_all c u session addrs now s)
  unfolding deselect_all deselect
  deselect_all-IsConsistent u session [] now s v = v
  deselect_all-IsConsistent u session (a ∷ rest) now s v =
      deselect_all-IsConsistent u session rest now (deselect c u session a now s)
        (deselect_with-IsConsistent c u session a ReleaseReason.switcher_change false false now s v)

  select_members-IsConsistent :
      (u : ℕ) (session source : String) (acquired rest : List ℕ) (now : ℕ) (s : Leaser)
      → IsConsistent s
      → IsConsistent (select_members c u session source acquired rest now s).0
  unfolding select_members
  select_members-IsConsistent u session source acquired [] now s v = v
  select_members-IsConsistent u session source acquired (a ∷ rest) now s v =
      let v1 = select-IsConsistent u session source a now s v in
      elim (Bool-cases (gate_allows c u a)) [
        | inr e ↦ rw (e, select_members) (deselect_all-IsConsistent u session acquired now _ v)
        | inl e ↦ elim (Option-cases (select c u session source a now s).2) [
          | inl p ↦
              rw (e, select_members)
                (rw (p, select_members)
                  (select_members-IsConsistent u session source (acquired ++ a ∷ []) rest now _ v1))
          | inr (err, p) ↦
              rw (e, select_members)
                (rw (p, select_members) (deselect_all-IsConsistent u session acquired now _ v1))
        ]
      ]

mark_train-IsConsistent :
    (train : String) (addrs : List ℕ) (s : Leaser)
    → IsConsistent s
    → IsConsistent (mark_train train addrs s)
unfolding mark_train
mark_train-IsConsistent train [] s v = v
mark_train-IsConsistent train (a ∷ rest) s v = elim (Option-cases (lookup a s.leases)) [
  | inl e ↦ rw (e, mark_train) (mark_train-IsConsistent train rest s v)
  | inr (le, e) ↦
      rw (e, mark_train)
        (mark_train-IsConsistent train rest _ (
          rewritten a le (record le { kind = LeaseKind.lease_train; train_id = train }) s v e refl
            refl refl))
]

module _ (c : Components) where
  select_train_within-IsConsistent :
      (u : ℕ) (session source train : String) (addrs : List ℕ) (now : ℕ) (s : Leaser)
      → IsConsistent s
      → IsConsistent (select_train_within c u session source train addrs now s).0
  unfolding select_train_within
  select_train_within-IsConsistent u session source train addrs now s v =
      let v1 = select_members-IsConsistent c u session source [] addrs now s v in
      elim (Option-cases (select_members c u session source [] addrs now s).1) [
        | inl e ↦ rw (e, select_train_within) (mark_train-IsConsistent train addrs _ v1)
        | inr (err, e) ↦ rw (e, select_train_within) v1
      ]

  train_budget-IsConsistent :
      (addrs : List ℕ) (s : Leaser) → IsConsistent s → IsConsistent (train_budget c addrs s).0
  unfolding train_budget
  train_budget-IsConsistent addrs s v = elim (Bool-cases (ltb 0 s.max_slots)) [
    | inl e ↦ rw e (ensure_budget_headroom-IsConsistent c (new_slots s.leases addrs) s v)
    | inr e ↦ rw e v
  ]

  pub select_train-IsConsistent :
      (u : ℕ) (session source train : String) (addrs : List ℕ) (now : ℕ) (s : Leaser)
      → IsConsistent s
      → IsConsistent (select_train c u session source train addrs now s).0
  unfolding select_train
  select_train-IsConsistent u session source train addrs now s v =
      elim (Bool-cases (length addrs == 0)) [
        | inl e ↦ rw e v
        | inr e ↦ elim (Bool-cases (ltb s.max_per_user (per_user_of u s.per_user + length addrs))) [
          | inl f ↦ rw e (rw f v)
          | inr f ↦ elim (Bool-cases (train_budget c addrs s).1) [
            | inl g ↦ rw e (
                rw f (
                  rw g (
                    select_train_within-IsConsistent u session source train addrs now _
                      (train_budget-IsConsistent addrs s v))))
            | inr g ↦ rw e (rw f (rw g (train_budget-IsConsistent addrs s v)))
          ]
        ]
      ]

pub touch-IsConsistent :
    (u : ℕ) (session : String) (a now : ℕ) (s : Leaser)
    → IsConsistent s
    → IsConsistent (touch u session a now s)
unfolding touch
touch-IsConsistent u session a now s v = elim (Option-cases (lookup a s.leases)) [
  | inl e ↦ rw (e, touch) v
  | inr (le, e) ↦ elim (Bool-cases (has (touch_key u session le.holders) le.holders)) [
    | inl p ↦ rw (e, touch) (rw p (rewritten a le _ s v e refl refl refl))
    | inr p ↦ rw (e, touch) (rw p v)
  ]
]
