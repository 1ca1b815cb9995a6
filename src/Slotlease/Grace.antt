-- ===== src/Slotlease/Grace.antt =====
-- The leases in a switcher grace window, which budget pressure may take.
use bigfred.Base.{
  ℕ, ◌≡◌, ◌≢◌, refl, false, ◌||◌, some, List, [], ◌∷◌, Map, arith, Bool-cases, Option-cases, inl,
  inr, ltb, lookup, erase, Distinct, ◌==◌, lookup-erase, erase_absent, nat_key, string_key, length,
  beq_eq, beq_refl, All, All-map, All-take, take, lookup-cons,
}
use bigfred.Slotlease.Types.{Lease, Leaser, holder_key}
use bigfred.Slotlease.Ledger.{drop_lease}
use bigfred.Slotlease.Consistency.{IsConsistent, erase_empty-Consistent}
use bigfred.Slotlease.Reserve.{
  candidates, insert_newest, sort_newest, take_chosen, take_deferred_releases,
}

-- The address has a lease in its grace window: no holder, and the time of its release.
pub record InGrace (m : Map ℕ Lease) (x : ℕ × ℕ) : Type 0 where
  pub lease : Lease
  pub found : lookup x.0 m ≡ some lease
  pub empty : lease.holders ≡ []
  pub at_eq : lease.release_at ≡ x.1
  pub at_set : x.1 ≢ 0

InGrace-cons :
    (i : ℕ) (w : Lease) (m : Map ℕ Lease)
    → Distinct ((i, w) ∷ m)
    → (x : ℕ × ℕ) → InGrace m x
    → InGrace ((i, w) ∷ m) x
InGrace-cons i w m d x g = record {
  lease = g.lease;
  found = lookup-cons x.0 i g.lease w m d g.found;
  empty = g.empty;
  at_eq = g.at_eq;
  at_set = g.at_set;
}

length-lt-nil {ℓ} : {A : Type ℓ} (xs : List A) → ltb 0 (length xs) ≡ false → xs ≡ []
length-lt-nil [] h = refl
length-lt-nil (x ∷ xs) h = absurd (ground arith)

pub candidates-InGrace : (m : Map ℕ Lease) → Distinct m → All (InGrace m) (candidates m)
unfolding candidates lookup
candidates-InGrace [] d = tt
candidates-InGrace ((a, le) ∷ m) d =
    elim (Bool-cases (le.release_at == 0 || ltb 0 (length le.holders))) [
      | inl e ↦ rw e (rest (candidates-InGrace m d.1))
      | inr e ↦ rw e (here (ground arith) (ground arith), rest (candidates-InGrace m d.1))
    ]
  where
    rest : All (InGrace m) (candidates m) → All (InGrace ((a, le) ∷ m)) (candidates m)
    rest = All-map (InGrace-cons a le m d) (candidates m)

    here :
        le.release_at ≢ 0
        → ltb 0 (length le.holders) ≡ false
        → InGrace ((a, le) ∷ m) (a, le.release_at)
    here n e = record {
      lease = le;
      found = rw (beq_refl a, lookup) refl;
      empty = length-lt-nil le.holders e;
      at_eq = refl;
      at_set = n;
    }

pub insert_newest-All :
    (P : ℕ × ℕ → Type 0) (x : ℕ × ℕ) (xs : List (ℕ × ℕ))
    → P x
    → All P xs
    → All P (insert_newest x xs)
unfolding insert_newest
insert_newest-All P x [] p h = (p, tt)
insert_newest-All P (a, at) ((b, bt) ∷ xs) p h = elim (Bool-cases (ltb at bt)) [
  | inl e ↦ rw e (h.0, insert_newest-All P (a, at) xs p h.1)
  | inr e ↦ rw e (p, h)
]

pub sort_newest-All : (P : ℕ × ℕ → Type 0) (xs : List (ℕ × ℕ)) → All P xs → All P (sort_newest xs)
unfolding sort_newest
sort_newest-All P [] h = tt
sort_newest-All P (x ∷ xs) h = insert_newest-All P x (sort_newest xs) h.0 (sort_newest-All P xs h.1)

-- Whatever lease the address has is held by nobody.
abbrev pub IsDroppable : Map ℕ Lease → ℕ × ℕ → Type 0
IsDroppable m x = (le : Lease) → lookup x.0 m ≡ some le → le.holders ≡ []

InGrace-IsDroppable : (m : Map ℕ Lease) (x : ℕ × ℕ) → InGrace m x → IsDroppable m x
InGrace-IsDroppable m x g le e = ground (arith, g.found, g.empty)

pub erase-IsDroppable :
    (a : ℕ) (m : Map ℕ Lease) (x : ℕ × ℕ) → IsDroppable m x → IsDroppable (erase a m) x
erase-IsDroppable a m x h le e = h le (ground (arith, lookup-erase x.0 a m))

pub drop_lease-IsConsistent :
    (a at : ℕ) (s : Leaser)
    → IsConsistent s
    → IsDroppable s.leases (a, at)
    → IsConsistent (drop_lease a s)
drop_lease-IsConsistent a at s v h = elim (Option-cases (lookup a s.leases)) [
  | inl e ↦ rw (erase_absent a s.leases e) v
  | inr (le, e) ↦ erase_empty-Consistent v a le e (h le e)
]

take_chosen-IsConsistent :
    (xs : List (ℕ × ℕ)) (s : Leaser)
    → IsConsistent s
    → All (IsDroppable s.leases) xs
    → IsConsistent (take_chosen xs s).0
unfolding take_chosen
take_chosen-IsConsistent [] s v h = v
take_chosen-IsConsistent ((a, at) ∷ xs) s v h =
    take_chosen-IsConsistent xs (drop_lease a s) (drop_lease-IsConsistent a at s v h.0)
      (All-map (erase-IsDroppable a s.leases) xs h.1)

-- A lease with a holder stays.
take_chosen-held :
    (b : ℕ) (le : Lease) (xs : List (ℕ × ℕ)) (s : Leaser)
    → All (IsDroppable s.leases) xs
    → lookup b s.leases ≡ some le
    → le.holders ≢ []
    → lookup b (take_chosen xs s).0.leases ≡ some le
unfolding take_chosen
take_chosen-held b le [] s h e n = e
take_chosen-held b le ((a, at) ∷ xs) s h e n =
    take_chosen-held b le xs (drop_lease a s) (All-map (erase-IsDroppable a s.leases) xs h.1)
      (elim (Bool-cases (a == b)) [
        | inl p ↦ absurd (n (h.0 le (rw (beq_eq a b p) e)))
        | inr p ↦ rw (lookup-erase b a s.leases, p) e
      ])
      n

chosen-IsDroppable :
    (max : ℕ) (m : Map ℕ Lease)
    → Distinct m
    → All (IsDroppable m) (take max (sort_newest (candidates m)))
chosen-IsDroppable max m d =
    All-take _ max _ (
      sort_newest-All _ _ (All-map (InGrace-IsDroppable m) (candidates m) (candidates-InGrace m d)))

pub take_deferred_releases-IsConsistent :
    (max : ℕ) (s : Leaser) → IsConsistent s → IsConsistent (take_deferred_releases max s).0
unfolding take_deferred_releases
take_deferred_releases-IsConsistent max s v = elim (Bool-cases (max == 0)) [
  | inl e ↦ rw e v
  | inr e ↦ rw e (
      take_chosen-IsConsistent (take max (sort_newest (candidates s.leases))) s v
        (chosen-IsDroppable max s.leases v.distinct))
]

pub take_deferred_releases-held :
    (b : ℕ) (le : Lease) (max : ℕ) (s : Leaser)
    → Distinct s.leases
    → lookup b s.leases ≡ some le
    → le.holders ≢ []
    → lookup b (take_deferred_releases max s).0.leases ≡ some le
unfolding take_deferred_releases
take_deferred_releases-held b le max s d e n = elim (Bool-cases (max == 0)) [
  | inl z ↦ rw z e
  | inr z ↦ rw z (
      take_chosen-held b le (take max (sort_newest (candidates s.leases))) s
        (chosen-IsDroppable max s.leases d) e n)
]
