-- ===== src/Slotlease/Consistency.antt =====
-- The ledger's invariant: `perUser` counts the holders that the leases have, and a lease in its
-- grace window has no holder. The rules below show it after a change of one lease.
pub mod Holders
pub mod Deselect
pub mod Reserve
pub mod Select
pub mod Sweep
pub mod Histories
use bigfred.Base.{
  ℕ, zero, suc, ◌+◌, ◌-◌, ◌≡◌, ◌≢◌, ◌⊎◌, refl, sym, ap, ◌∙◌, Bool, true, false, ◌≤◌, Option, none,
  some, List, [], ◌∷◌, Map, arith, Bool-cases, Option-cases, inl, inr, if◌then◌else◌, ltb, has,
  lookup, insert, erase, maybe, total, Distinct, Entries, ◌==◌, nat_beq_iff, lookup-insert,
  lookup-erase, erase_absent, nat_key, insert-Distinct, erase-Distinct, insert-Entries,
  erase-Entries, total-insert, total-erase, le-total, Entries-lookup,
}
use mathlib.Core.Path.{subst}
use bigfred.Slotlease.Types.{
  Components, ReleaseReason, Lease, Leaser, HolderKey, holder_key, holder_beq_iff,
}
use bigfred.Slotlease.Ledger.{
  holder_count_for_user, decrement_user, increment_user, remove_user_addr, append_user_addr,
  without_holder, drop_holders, remove_holder, drop_lease_bookkeeping,
}
use bigfred.Slotlease.Untouched.{core, core-stop_and_release, core-enqueue_release}
use bigfred.Slotlease.Release.{stop_and_release, enqueue_release}
use bigfred.Slotlease.Counts.{
  per_user_of, held, per_user_of-decrement, remove_user_addr-keeps, decrement_user-keeps,
  holder_count-erase, drop_holders-leases, per_user_of-drop_holders,
}

-- One lease, under its address.
pub record IsSound (a : ℕ) (le : Lease) : Type 0 where
  pub addr_eq : le.addr ≡ a
  pub holders_distinct : Distinct le.holders
  pub grace_empty : (le.release_at ≡ 0) ⊎ (le.holders ≡ [])

-- The leases and the counts per user. User 0 stands for a throttle on the bus and is not counted.
pub record Consistent (m : Map ℕ Lease) (p : Map ℕ ℕ) : Type 0 where
  pub distinct : Distinct m
  pub sound : Entries IsSound m
  pub counted : (u : ℕ) → u ≢ 0 → per_user_of u p ≡ held u m

abbrev pub IsConsistent : Leaser → Type 0
IsConsistent s = Consistent s.leases s.per_user

pub core-IsConsistent : (s t : Leaser) → core t ≡ core s → IsConsistent s → IsConsistent t
core-IsConsistent s t e v = subst IsConsistent (sym e) v

module _ (c : Components) (a : ℕ) (reason : ReleaseReason) (s : Leaser) (v : IsConsistent s) where
  pub stop_and_release-IsConsistent : IsConsistent (stop_and_release c a reason s)
  stop_and_release-IsConsistent =
      core-IsConsistent s (stop_and_release c a reason s) (core-stop_and_release c a reason s) v

  pub enqueue_release-IsConsistent : IsConsistent (enqueue_release c a reason s)
  enqueue_release-IsConsistent =
      core-IsConsistent s (enqueue_release c a reason s) (core-enqueue_release c a reason s) v

module _ {m : Map ℕ Lease} {p : Map ℕ ℕ} (v : Consistent m p) where
  pub lookup-IsSound : (a : ℕ) (le : Lease) → lookup a m ≡ some le → IsSound a le
  lookup-IsSound a le e = Entries-lookup IsSound a m le v.sound e

  -- A lease is written, and the counts follow.
  pub insert-Consistent :
      (a : ℕ) (le : Lease) (q : Map ℕ ℕ)
      → IsSound a le
      → ((u : ℕ)
          → u ≢ 0
          → per_user_of u q + maybe 0 (λ l. holder_count_for_user u l.holders) (lookup a m)
            ≡ per_user_of u p + holder_count_for_user u le.holders)
      → Consistent (insert a le m) q
  insert-Consistent a le q w h = record {
    distinct = insert-Distinct a le m v.distinct;
    sound = insert-Entries IsSound a le m w v.sound;
    counted = λ u n.
        omega (
          arith,
          h u n,
          v.counted u n,
          total-insert (λ l. holder_count_for_user u l.holders) a le m,
        );
  }

  -- A lease is deleted, and the counts follow.
  pub erase-Consistent :
      (a : ℕ) (q : Map ℕ ℕ)
      → ((u : ℕ)
          → u ≢ 0
          → per_user_of u q + maybe 0 (λ l. holder_count_for_user u l.holders) (lookup a m)
            ≡ per_user_of u p)
      → Consistent (erase a m) q
  erase-Consistent a q h = record {
    distinct = erase-Distinct a m v.distinct;
    sound = erase-Entries IsSound a m v.sound;
    counted = λ u n. omega (
      arith,
      h u n,
      v.counted u n,
      total-erase (λ l. holder_count_for_user u l.holders) a m v.distinct,
    );
  }

  pub count-le-per_user :
      (a : ℕ) (le : Lease) (u : ℕ)
      → lookup a m ≡ some le
      → u ≢ 0
      → holder_count_for_user u le.holders ≤ per_user_of u p
  count-le-per_user a le u e n =
      ground (arith, v.counted u n, le-total (λ l. holder_count_for_user u l.holders) a m)

  -- A lease that keeps its holders is written.
  pub rewrite-Consistent :
      (a : ℕ) (old le : Lease)
      → lookup a m ≡ some old
      → IsSound a le
      → le.holders ≡ old.holders
      → Consistent (insert a le m) p
  rewrite-Consistent a old le e w h = insert-Consistent a le p w (λ u n. ground arith)

  -- A lease with no holders is deleted.
  pub erase_empty-Consistent :
      (a : ℕ) (le : Lease) → lookup a m ≡ some le → le.holders ≡ [] → Consistent (erase a m) p
  unfolding holder_count_for_user
  erase_empty-Consistent a le e h = erase-Consistent a p (λ u n. ground arith)
