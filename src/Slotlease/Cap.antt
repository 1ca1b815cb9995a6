-- ===== src/Slotlease/Cap.antt =====
-- How `deselect` and `Reserve` move a user's count, and the per-user cap.
use bigfred.Base.{
  ℕ, ◌+◌, ◌-◌, ◌≡◌, ◌≢◌, ◌⊎◌, refl, sym, ap, ◌∙◌, Bool, true, false, ◌&&◌, String, some, [], ◌∷◌,
  Map, arith, Bool-cases, inl, inr, if◌then◌else◌, has, lookup, insert, ◌==◌, lookup-insert,
  nat_key, string_key, has-cons, has-cons_self, beq_ne, beq_refl,
}
use bigfred.Slotlease.Types.{
  Lease, Leaser, HolderKey, ReleaseReason, Components, Effect, Metric, holder_key,
}
use bigfred.Slotlease.Ledger.{
  emit, zero_key, find_holder, remove_holder, decrement_user, increment_user,
}
use bigfred.Slotlease.Reserve.{
  close_lease, drop_found, deselect_with, cancel_release, add_holder, reserve_holder,
}
use bigfred.Slotlease.Counts.{
  per_user_of, per_user_of-decrement, per_user_of-increment, remove_user_addr-keeps,
  append_user_addr-keeps,
}
use bigfred.Slotlease.Untouched.{core-stop_and_release, core-enqueue_release}
use bigfred.Slotlease.Consistency.Reserve.{start_lease, cancel_release-keeps, add_holder-keeps}

find_holder-cons :
    (u : ℕ) (session : String) (k : HolderKey) (x : Unit {0}) (hs : Map HolderKey (Unit {0}))
    → find_holder u session ((k, x) ∷ hs)
      ≡ (if k.user_id == u && k.session == session then k else find_holder u session hs)
unfolding find_holder
find_holder-cons u session k x hs = refl

-- The holder that `deselect` finds is one of the lease's, or the zero key.
pub find_holder-has :
    (u : ℕ) (session : String) (hs : Map HolderKey (Unit {0}))
    → (find_holder u session hs ≡ zero_key)
      ⊎ ((has (find_holder u session hs) hs ≡ true) × ((find_holder u session hs).user_id ≡ u))
find_holder-has u session [] = inl (unfold find_holder in refl)
find_holder-has u session ((k, x) ∷ hs) =
    rw (find_holder-cons u session k x hs)
      (elim (Bool-cases (k.user_id == u && k.session == session)) [
        | inl e ↦ rw e (inr (has-cons_self k x hs, ground arith))
        | inr e ↦ rw e (elim (find_holder-has u session hs) [
          | inl p ↦ inl p
          | inr (p, q) ↦ inr (has-cons (find_holder u session hs) k x hs p, q)
        ])
      ])

module _ (c : Components) where
  close_lease-per_user :
      (le : Lease) (a : ℕ) (reason : ReleaseReason) (deferred async : Bool) (now : ℕ) (s : Leaser)
      → (close_lease c le a reason deferred async now s).per_user ≡ s.per_user
  unfolding close_lease
  close_lease-per_user le a reason true async now s = refl
  close_lease-per_user le a reason false true now s =
      ap (λ (x : Leaser). x.per_user) (core-enqueue_release c a reason _)
  close_lease-per_user le a reason false false now s =
      ap (λ (x : Leaser). x.per_user) (core-stop_and_release c a reason _)

  drop_found-per_user :
      (le : Lease) (found : HolderKey) (a : ℕ) (reason : ReleaseReason) (deferred async : Bool)
      (now : ℕ) (s : Leaser)
      → (drop_found c le found a reason deferred async now s).per_user
        ≡ (remove_holder le found
            (emit (Effect.metric (Metric.deselect found.source)) s)).1.per_user
  unfolding drop_found
  drop_found-per_user le found a reason deferred async now s =
      let r = remove_holder le found (emit (Effect.metric (Metric.deselect found.source)) s) in
      ground (arith, close_lease-per_user r.0 a reason deferred async now r.1)

  removed-per_user :
      (u : ℕ) (le : Lease) (key : HolderKey) (s : Leaser)
      → has key le.holders ≡ true
      → per_user_of u (remove_holder le key s).1.per_user
        ≡ (if key.user_id == u then per_user_of u s.per_user - 1 else per_user_of u s.per_user)
  unfolding remove_holder
  removed-per_user u le key s h =
      rw (h, remove_holder)
        (ground (
          arith,
          per_user_of-decrement key.user_id u s,
          remove_user_addr-keeps key.user_id le.addr (decrement_user key.user_id s),
        ))

  -- Where the address has a lease, `deselect` takes one off the user's count when it finds a
  -- holder of the user and session on it, and nothing otherwise.
  pub deselect_with-per_user :
      (u : ℕ) (session : String) (a : ℕ) (reason : ReleaseReason) (deferred async : Bool) (now : ℕ)
      (s : Leaser) (le : Lease)
      → lookup a s.leases ≡ some le
      → let found = find_holder u session le.holders in
        per_user_of u (deselect_with c u session a reason deferred async now s).per_user
        ≡ (if found.user_id == 0 then per_user_of u s.per_user else per_user_of u s.per_user - 1)
  unfolding deselect_with
  deselect_with-per_user u session a reason deferred async now s le e =
      let found = find_holder u session le.holders in
      let s1 = emit (Effect.metric (Metric.deselect found.source)) s in
      elim (Bool-cases (found.user_id == 0)) [
        | inl z ↦ rw (e, deselect_with) (rw z refl)
        | inr z ↦
            rw (e, deselect_with)
              (rw z (
                rw (drop_found-per_user le found a reason deferred async now s) (
                  ground (
                    arith,
                    z,
                    find_holder-has u session le.holders,
                    removed-per_user u le found s1,
                  ))))
      ]

-- How many holders `Reserve` adds for the key.
abbrev pub new_holders : HolderKey → ℕ → Leaser → ℕ
new_holders key a s = if has key (start_lease a s).holders then 0 else 1

pub per_user_of-reserve_holder :
    (key : HolderKey) (a now : ℕ) (s : Leaser)
    → per_user_of key.user_id (reserve_holder key a now s).per_user
      ≡ per_user_of key.user_id s.per_user + new_holders key a s
unfolding reserve_holder add_holder
per_user_of-reserve_holder key a now s =
    let r = cancel_release a now (start_lease a s, s) in
    ground (
      arith,
      beq_refl key.user_id,
      cancel_release-keeps a now (start_lease a s) s,
      per_user_of-increment key.user_id key.user_id r.1,
      append_user_addr-keeps key.user_id a (increment_user key.user_id r.1),
    )

pub lookup-reserve_holder_ne :
    (key : HolderKey) (a b now : ℕ) (s : Leaser)
    → b ≢ a
    → lookup b (reserve_holder key a now s).leases ≡ lookup b s.leases
unfolding reserve_holder
lookup-reserve_holder_ne key a b now s n =
    let r1 = cancel_release a now (start_lease a s, s) in
    let r2 = add_holder key a (record (r1.0) { release_at = 0 }, r1.1) in
    let le : Lease = record (r2.0) { last_drive_at = insert key now (r2.0).last_drive_at } in
    lookup-insert b a le r2.1.leases
    ∙ rw (beq_ne a b (λ e. n (sym e))) (
        ap (lookup b) (
          (add_holder-keeps key a (record (r1.0) { release_at = 0 }) r1.1).2
          ∙ (cancel_release-keeps a now (start_lease a s) s).2))
