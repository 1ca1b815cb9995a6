-- ===== src/Slotlease/Counts.antt =====
-- How the counts per user follow the holders: `perUser`, and the holders of each user over the
-- leases.
use bigfred.Base.{
  ℕ, ◌+◌, ◌-◌, ◌≡◌, ◌≢◌, refl, ◌∙◌, false, [], ◌∷◌, Map, arith, Bool-cases, inl, inr, if◌then◌else◌,
  has, lookup, insert, erase, maybe, total, Distinct, ◌==◌, lookup-insert, lookup-erase,
  erase_absent, nat_key,
}
use bigfred.Slotlease.Types.{Lease, Leaser, HolderKey, holder_key, holder_beq_iff}
use bigfred.Slotlease.Ledger.{
  holder_count_for_user, decrement_user, increment_user, remove_user_addr, append_user_addr,
  drop_holders,
}

abbrev pub per_user_of : ℕ → Map ℕ ℕ → ℕ
per_user_of u p = maybe 0 (λ k. k) (lookup u p)

-- The holders of a user over all leases.
abbrev pub held : ℕ → Map ℕ Lease → ℕ
held u = total λ le. holder_count_for_user u le.holders

pub per_user_of-decrement :
    (u j : ℕ) (s : Leaser)
    → per_user_of j (decrement_user u s).per_user
      ≡ (if u == j then per_user_of j s.per_user - 1 else per_user_of j s.per_user)
unfolding decrement_user
per_user_of-decrement u j s = ground (
  arith,
  lookup-erase j u s.per_user,
  lookup-insert j u (per_user_of u s.per_user - 1) s.per_user,
)

pub per_user_of-increment :
    (u j : ℕ) (s : Leaser)
    → per_user_of j (increment_user u s).per_user
      ≡ (if u == j then per_user_of j s.per_user + 1 else per_user_of j s.per_user)
unfolding increment_user
per_user_of-increment u j s =
    ground (arith, lookup-insert j u (per_user_of u s.per_user + 1) s.per_user)

-- The order of a user's addresses is all that these two write.
pub remove_user_addr-keeps :
    (u a : ℕ) (s : Leaser)
    → ((remove_user_addr u a s).per_user ≡ s.per_user)
      × ((remove_user_addr u a s).leases ≡ s.leases)
unfolding remove_user_addr
remove_user_addr-keeps u a s = ground arith

pub append_user_addr-keeps :
    (u a : ℕ) (s : Leaser)
    → ((append_user_addr u a s).per_user ≡ s.per_user)
      × ((append_user_addr u a s).leases ≡ s.leases)
unfolding append_user_addr
append_user_addr-keeps u a s = ground arith

pub decrement_user-keeps : (u : ℕ) (s : Leaser) → (decrement_user u s).leases ≡ s.leases
unfolding decrement_user
decrement_user-keeps u s = ground arith

pub holder_count-erase :
    (u : ℕ) (key : HolderKey) (hs : Map HolderKey (Unit {0}))
    → Distinct hs
    → holder_count_for_user u (erase key hs)
        + (if has key hs then (if key.user_id == u then 1 else 0) else 0)
      ≡ holder_count_for_user u hs
unfolding holder_count_for_user erase lookup
holder_count-erase u key [] d = omega arith
holder_count-erase u key ((k, x) ∷ hs) d =
    ground (arith, holder_beq_iff k key, erase_absent k hs, holder_count-erase u key hs d.1)

pub holder_count-insert :
    (u : ℕ) (key : HolderKey) (hs : Map HolderKey (Unit {0}))
    → has key hs ≡ false
    → holder_count_for_user u (insert key tt hs)
      ≡ holder_count_for_user u hs + (if key.user_id == u then 1 else 0)
unfolding holder_count_for_user insert lookup
holder_count-insert u key [] h = ground arith
holder_count-insert u key ((k, x) ∷ hs) h = ground (arith, holder_count-insert u key hs)

pub drop_holders-leases :
    (a : ℕ) (hs : Map HolderKey (Unit {0})) (s : Leaser) → (drop_holders a hs s).leases ≡ s.leases
unfolding drop_holders
drop_holders-leases a [] s = refl
drop_holders-leases a ((k, x) ∷ hs) s =
    grind (arith, drop_holders-leases a hs, remove_user_addr-keeps, decrement_user-keeps)

pub per_user_of-drop_holders :
    (u a : ℕ) (hs : Map HolderKey (Unit {0})) (s : Leaser)
    → u ≢ 0
    → per_user_of u (drop_holders a hs s).per_user
      ≡ per_user_of u s.per_user - holder_count_for_user u hs
unfolding drop_holders holder_count_for_user
per_user_of-drop_holders u a [] s h = omega arith
per_user_of-drop_holders u a ((k, x) ∷ hs) s h = ground (
  arith,
  remove_user_addr-keeps k.user_id a (decrement_user k.user_id s),
  per_user_of-decrement k.user_id u s,
  per_user_of-drop_holders u a hs
      (if k.user_id == 0 then s else remove_user_addr k.user_id a (decrement_user k.user_id s)) h,
)

-- The limits, which the bookkeeping does not write.
pub record Limits : Type 0 where
  pub max_per_user : ℕ
  pub max_slots : ℕ
  pub idle_timeout : ℕ
  pub switcher_grace : ℕ

abbrev pub limits : Leaser → Limits
limits s = record {
  max_per_user = s.max_per_user;
  max_slots = s.max_slots;
  idle_timeout = s.idle_timeout;
  switcher_grace = s.switcher_grace;
}

pub limits-bookkeeping :
    (u a : ℕ) (s : Leaser) → limits (remove_user_addr u a (decrement_user u s)) ≡ limits s
unfolding remove_user_addr decrement_user
limits-bookkeeping u a s = ground arith

pub limits-drop_holders :
    (a : ℕ) (hs : Map HolderKey (Unit {0})) (s : Leaser) → limits (drop_holders a hs s) ≡ limits s
unfolding drop_holders
limits-drop_holders a [] s = refl
limits-drop_holders a ((k, x) ∷ hs) s = elim (Bool-cases (k.user_id == 0)) [
  | inl e ↦ rw (e, drop_holders) (limits-drop_holders a hs s)
  | inr e ↦ rw (e, drop_holders) (limits-drop_holders a hs _ ∙ limits-bookkeeping k.user_id a s)
]
