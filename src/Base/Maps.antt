-- ===== src/Base/Maps.antt =====
-- Go maps as association lists. A `range` over a map visits its entries in any order; here that is
-- the order of the list, about which nothing is assumed. A `map[K]struct{}` is a `Map K Unit`.
use Prim.Native.Nat.{ℕ, ◌+◌, ◌≤◌}
use mathlib.Core.Path.{◌≡◌, refl, subst₂}
use mathlib.Core.List.{List, [], ◌∷◌}
use mathlib.Core.Bool.{Bool, true}
use mathlib.Core.Logic.{inl, inr}
use mathlib.Core.Option.{Option, none, some}
use native.Mathlib.Omega.{arith}
use bigfred.Base.Tests.{Key, ◌==◌, if◌then◌else◌, Bool-cases, beq_refl, beq_eq, is_some}

abbrev pub Map {ℓ κ} : Type ℓ → Type κ → Type (ℓ ⊔ κ)
Map K V = List (K × V)

abbrev pub maybe {ℓ κ} : {A : Type ℓ} {B : Type κ} → B → (A → B) → Option A → B
maybe b f none = b
maybe b f (some a) = f a

module _ {ℓ κ} {K : Type ℓ} {V : Type κ} where
  -- The sum of a measure over the values.
  unfoldable pub total : (V → ℕ) → Map K V → ℕ
  total f [] = 0
  total f ((k, v) ∷ m) = f v + total f m

  -- A property of every entry.
  abbrev pub Entries {μ} : (K → V → Type μ) → Map K V → Type μ
  Entries P [] = Unit
  Entries P ((k, v) ∷ m) = P k v × Entries P m

module _ {ℓ κ} {K : Type ℓ} {V : Type κ} ⦃e : Key K⦄ where
  unfoldable pub lookup : K → Map K V → Option V
  lookup k [] = none
  lookup k ((j, v) ∷ m) = if j == k then some v else lookup k m

  unfoldable pub insert : K → V → Map K V → Map K V
  insert k v [] = (k, v) ∷ []
  insert k v ((j, w) ∷ m) = if j == k then (k, v) ∷ m else (j, w) ∷ insert k v m

  unfoldable pub erase : K → Map K V → Map K V
  erase k [] = []
  erase k ((j, w) ∷ m) = let rest = erase k m in if j == k then rest else (j, w) ∷ rest

  abbrev pub has : K → Map K V → Bool
  has k m = is_some (lookup k m)

  -- No key stands twice, as in any Go map.
  abbrev pub Distinct : Map K V → Type κ
  Distinct [] = Unit
  Distinct ((k, v) ∷ m) = (lookup k m ≡ none) × Distinct m

  pub lookup-insert :
      (j k : K) (v : V) (m : Map K V)
      → lookup j (insert k v m) ≡ (if k == j then some v else lookup j m)
  unfolding lookup insert
  lookup-insert j k v [] = refl
  lookup-insert j k v ((i, w) ∷ m) =
      ground (arith, e.same_iff i k, e.same_iff i j, e.same_iff k j, lookup-insert j k v m)

  pub lookup-insert_self : (k : K) (v : V) (m : Map K V) → lookup k (insert k v m) ≡ some v
  lookup-insert_self k v m = rw (lookup-insert k k v m, beq_refl k)

  pub lookup-erase :
      (j k : K) (m : Map K V) → lookup j (erase k m) ≡ (if k == j then none else lookup j m)
  unfolding lookup erase
  lookup-erase j k [] = ground arith
  lookup-erase j k ((i, w) ∷ m) =
      ground (arith, e.same_iff i k, e.same_iff i j, e.same_iff k j, lookup-erase j k m)

  pub lookup-erase_self : (k : K) (m : Map K V) → lookup k (erase k m) ≡ none
  lookup-erase_self k m = rw (lookup-erase k k m, beq_refl k)

  pub erase_absent : (k : K) (m : Map K V) → lookup k m ≡ none → erase k m ≡ m
  unfolding lookup erase
  erase_absent k [] h = refl
  erase_absent k ((i, w) ∷ m) h = ground (arith, erase_absent k m)

  -- What an entry of the tail is found under, it is found under in the whole map.
  pub lookup-cons :
      (j i : K) (v w : V) (m : Map K V)
      → Distinct ((i, w) ∷ m)
      → lookup j m ≡ some v
      → lookup j ((i, w) ∷ m) ≡ some v
  unfolding lookup
  lookup-cons j i v w m d h = elim (Bool-cases (i == j)) [
    | inl p ↦ absurd (cc (d.0, h, beq_eq i j p))
    | inr p ↦ rw p h
  ]

  pub has-cons : (j i : K) (w : V) (m : Map K V) → has j m ≡ true → has j ((i, w) ∷ m) ≡ true
  unfolding lookup
  has-cons j i w m h = ground arith

  pub has-cons_self : (k : K) (v : V) (m : Map K V) → has k ((k, v) ∷ m) ≡ true
  unfolding lookup
  has-cons_self k v m = rw (beq_refl k) refl

  pub total-insert :
      (f : V → ℕ) (k : K) (v : V) (m : Map K V)
      → total f (insert k v m) + maybe 0 f (lookup k m) ≡ total f m + f v
  unfolding total lookup insert
  total-insert f k v [] = omega arith
  total-insert f k v ((i, w) ∷ m) = ground (arith, total-insert f k v m)

  pub total-erase :
      (f : V → ℕ) (k : K) (m : Map K V)
      → Distinct m
      → total f (erase k m) + maybe 0 f (lookup k m) ≡ total f m
  unfolding total lookup erase
  total-erase f k [] d = omega arith
  total-erase f k ((i, w) ∷ m) d =
      ground (arith, e.same_iff i k, erase_absent k m, total-erase f k m d.1)

  pub le-total : (f : V → ℕ) (k : K) (m : Map K V) → maybe 0 f (lookup k m) ≤ total f m
  unfolding total lookup
  le-total f k [] = omega arith
  le-total f k ((i, w) ∷ m) = ground (arith, le-total f k m)

  pub insert-Distinct : (k : K) (v : V) (m : Map K V) → Distinct m → Distinct (insert k v m)
  unfolding lookup insert
  insert-Distinct k v [] d = ground arith
  insert-Distinct k v ((i, w) ∷ m) d =
      ground
        (arith, e.same_iff i k, e.same_iff k i, lookup-insert i k v m, insert-Distinct k v m d.1)

  pub erase-Distinct : (k : K) (m : Map K V) → Distinct m → Distinct (erase k m)
  unfolding lookup erase
  erase-Distinct k [] d = ground arith
  erase-Distinct k ((i, w) ∷ m) d =
      ground (arith, e.same_iff i k, lookup-erase i k m, erase-Distinct k m d.1)

  pub Entries-map {μ ν} :
      {P : K → V → Type μ} {Q : K → V → Type ν}
      → ((k : K) (v : V) → P k v → Q k v)
      → (m : Map K V) → Entries P m
      → Entries Q m
  Entries-map f [] h = tt
  Entries-map f ((k, v) ∷ m) h = (f k v h.0, Entries-map f m h.1)

  module _ {μ} (P : K → V → Type μ) where
    pub Entries-lookup : (k : K) (m : Map K V) (v : V) → Entries P m → lookup k m ≡ some v → P k v
    unfolding lookup
    Entries-lookup k [] v h q = cc
    Entries-lookup k ((i, w) ∷ m) v h q = elim (Bool-cases (i == k)) [
      | inl p ↦ let r : w ≡ v = ground arith in subst₂ P (beq_eq i k p) r h.0
      | inr p ↦ Entries-lookup k m v h.1 (rw p at q)
    ]

    -- What holds wherever a key is found holds of every entry.
    pub Entries-of_lookup :
        (m : Map K V) → Distinct m → ((k : K) (v : V) → lookup k m ≡ some v → P k v) → Entries P m
    unfolding lookup
    Entries-of_lookup [] d h = tt
    Entries-of_lookup ((i, w) ∷ m) d h = (
      h i w (rw (beq_refl i) refl),
      Entries-of_lookup m d.1 (λ k v q. h k v (lookup-cons k i v w m d q)),
    )

    pub insert-Entries :
        (k : K) (v : V) (m : Map K V) → P k v → Entries P m → Entries P (insert k v m)
    unfolding insert
    insert-Entries k v [] p h = (p, tt)
    insert-Entries k v ((i, w) ∷ m) p h = elim (Bool-cases (i == k)) [
      | inl q ↦ rw (q, insert) (p, h.1)
      | inr q ↦ rw (q, insert) (h.0, insert-Entries k v m p h.1)
    ]

    pub erase-Entries : (k : K) (m : Map K V) → Entries P m → Entries P (erase k m)
    unfolding erase
    erase-Entries k [] h = tt
    erase-Entries k ((i, w) ∷ m) h = elim (Bool-cases (i == k)) [
      | inl q ↦ rw (q, erase) (erase-Entries k m h.1)
      | inr q ↦ rw (q, erase) (h.0, erase-Entries k m h.1)
    ]
