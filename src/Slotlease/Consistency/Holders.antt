-- ===== src/Slotlease/Consistency/Holders.antt =====
-- removeHolderLocked and dropLeaseBookkeepingLocked keep the counts in step with the holders.
use bigfred.Base.{
  ℕ, ◌+◌, ◌≡◌, ◌≢◌, refl, Bool, true, some, List, [], ◌∷◌, Map, arith, Bool-cases, Option-cases,
  inl, inr, has, lookup, erase, nat_key, string_key, erase-Distinct, length,
}
use bigfred.Slotlease.Types.{Lease, Leaser, HolderKey, holder_key}
use bigfred.Slotlease.Ledger.{
  holder_count_for_user, decrement_user, without_holder, drop_holders, remove_holder,
  drop_lease_bookkeeping,
}
use bigfred.Slotlease.Counts.{
  per_user_of, per_user_of-decrement, remove_user_addr-keeps, decrement_user-keeps,
  holder_count-erase, drop_holders-leases, per_user_of-drop_holders,
}
use bigfred.Slotlease.Consistency.{
  IsSound, IsConsistent, lookup-IsSound, erase-Consistent, count-le-per_user,
}

pub length-eq-zero {ℓ} : {A : Type ℓ} (xs : List A) → length xs ≡ 0 → xs ≡ []
length-eq-zero [] h = refl
length-eq-zero (x ∷ xs) h = absurd (omega arith)

has-nonempty : (key : HolderKey) (hs : Map HolderKey (Unit {0})) → has key hs ≡ true → hs ≢ []
unfolding lookup
has-nonempty key [] h = cc
has-nonempty key (x ∷ hs) h = λ e. cc

-- What a removal does to the counts, in the form that the rules of the invariant take.
pub record Removed (a : ℕ) (le : Lease) (s : Leaser) (r : Lease × Leaser × Bool) : Type 0 where
  pub leases_eq : r.1.leases ≡ s.leases
  pub counts :
      (u : ℕ)
      → u ≢ 0
      → per_user_of u r.1.per_user + holder_count_for_user u le.holders
        ≡ per_user_of u s.per_user + holder_count_for_user u r.0.holders
  pub is_sound : IsSound a r.0
  pub last_empty : r.2 ≡ true → r.0.holders ≡ []

module _ (a : ℕ) (le : Lease) (key : HolderKey) (s : Leaser) (v : IsConsistent s)
    (e : lookup a s.leases ≡ some le) where
  held-Removed : has key le.holders ≡ true → Removed a le s (remove_holder le key s)
  unfolding remove_holder without_holder
  held-Removed h =
      rw (h, remove_holder)
        (record {
          leases_eq = ground (
            arith,
            remove_user_addr-keeps key.user_id le.addr (decrement_user key.user_id s),
            decrement_user-keeps key.user_id s,
          );
          counts = λ u n. ground (
            arith,
            h,
            remove_user_addr-keeps key.user_id le.addr (decrement_user key.user_id s),
            per_user_of-decrement key.user_id u s,
            count-le-per_user v a le u e n,
            holder_count-erase u key le.holders (lookup-IsSound v a le e).holders_distinct,
          );
          is_sound = record {
            addr_eq = (lookup-IsSound v a le e).addr_eq;
            holders_distinct =
                erase-Distinct key le.holders (lookup-IsSound v a le e).holders_distinct;
            grace_empty =
                ground
                  (arith, (lookup-IsSound v a le e).grace_empty, has-nonempty key le.holders h);
          };
          last_empty = λ l. length-eq-zero (erase key le.holders) (ground arith);
        })

  pub remove_holder-Removed : Removed a le s (remove_holder le key s)
  unfolding remove_holder
  remove_holder-Removed = elim (Bool-cases (has key le.holders)) [
    | inl h ↦ held-Removed h
    | inr h ↦
        rw (h, remove_holder)
          (record {
            leases_eq = refl;
            counts = λ u n. refl;
            is_sound = lookup-IsSound v a le e;
            last_empty = λ l. cc;
          })
  ]

-- Dropping a lease with its bookkeeping keeps the ledger consistent.
pub drop_lease_bookkeeping-IsConsistent :
    (a : ℕ) (s : Leaser) → IsConsistent s → IsConsistent (drop_lease_bookkeeping a s)
unfolding drop_lease_bookkeeping
drop_lease_bookkeeping-IsConsistent a s v = elim (Option-cases (lookup a s.leases)) [
  | inl e ↦ rw (e, drop_lease_bookkeeping) v
  | inr (le, e) ↦
      rw (e, drop_lease_bookkeeping)
        (rw (drop_holders-leases a le.holders s) (
          erase-Consistent v a (drop_holders a le.holders s).per_user (λ u n.
            ground (
              arith,
              count-le-per_user v a le u e n,
              per_user_of-drop_holders u a le.holders s n,
            ))))
]
