-- ===== src/Inbound/Queues.antt =====
-- subscribeLocoLocked: the queue of a client's subscriptions.
use bigfred.Base.{
  ℕ, ◌≡◌, ◌≤◌, ◌<◌, ◌⊎◌, refl, ap, Bool, true, false, not, ◌&&◌, ◌||◌, Option, none, some, List, [],
  ◌∷◌, ◌++◌, arith, Bool-cases, List-cases, inl, inr, maybe, length, length-append, contains, ◌==◌,
  nat_key, string_key, beq_eq,
}
use bigfred.Inbound.Registry.{max_subscriptions, subscribe_loco_locked, trim}
use bigfred.Inbound.Index.{NoDup, IsQueue, contains-append, append-NoDup}

-- Whether the address is the one that had to leave.
abbrev pub is_trimmed : ℕ → Option ℕ → Bool
is_trimmed a trimmed = maybe false (λ t. t == a) trimmed

trim-cases :
    (b y : ℕ) (ys : List ℕ)
    → ((length (y ∷ ys) < max_subscriptions)
        × (trim (y ∷ (ys ++ b ∷ [])) ≡ (y ∷ (ys ++ b ∷ []), none)))
      ⊎ ((max_subscriptions ≤ length (y ∷ ys))
          × (trim (y ∷ (ys ++ b ∷ [])) ≡ (ys ++ b ∷ [], some y)))
trim-cases b y ys = ground (arith, length-append ys (b ∷ []))

-- An address that is in the queue leaves it as it is. A new one goes to the end, and where the
-- queue is at its limit the oldest one leaves and is answered.
pub subscribe_loco_locked-cases :
    (b : ℕ) (locos : List ℕ)
    → ((contains b locos ≡ true) × (subscribe_loco_locked locos b ≡ (locos, none)))
      ⊎ ((contains b locos ≡ false)
          × (length locos < max_subscriptions)
          × (subscribe_loco_locked locos b ≡ (locos ++ b ∷ [], none)))
      ⊎ ((contains b locos ≡ false)
          × ((y : ℕ) × (ys : List ℕ) × (locos ≡ y ∷ ys)
              × (max_subscriptions ≤ length locos)
              × (subscribe_loco_locked locos b ≡ (ys ++ b ∷ [], some y))))
unfolding subscribe_loco_locked
subscribe_loco_locked-cases b locos = elim (Bool-cases (contains b locos)) [
  | inl e ↦ inl (e, rw e refl)
  | inr e ↦ elim (List-cases locos) [
    | inl p ↦ rw p (inr (inl (unfold contains in refl, omega arith, unfold contains in refl)))
    | inr (y, ys, p) ↦ elim (trim-cases b y ys) [
      | inl (l, q) ↦ inr (inl (e, rw p l, rw (e, p) q))
      | inr (l, q) ↦ inr (inr (e, (y, ys, p, rw p l, rw (e, p) q)))
    ]
  ]
]

contains-tail : (b y : ℕ) (ys : List ℕ) → contains b (y ∷ ys) ≡ false → contains b ys ≡ false
unfolding contains
contains-tail b y ys h = ground (arith, h)

contains-trimmed :
    (a b y : ℕ) (ys : List ℕ)
    → NoDup (y ∷ ys)
    → contains b (y ∷ ys) ≡ false
    → contains a (ys ++ b ∷ []) ≡ (not (y == a) && (contains a (y ∷ ys) || b == a))
unfolding contains
contains-trimmed a b y ys n h = elim (Bool-cases (y == a)) [
  | inl q ↦
      rw q
        (rw (contains-append a b ys) (ground (arith, n, h, ap (λ z. contains z ys) (beq_eq y a q))))
  | inr q ↦ rw q (contains-append a b ys)
]

pub subscribe-IsQueue :
    (b : ℕ) (locos : List ℕ) → IsQueue locos → IsQueue (subscribe_loco_locked locos b).0
subscribe-IsQueue b locos q = elim (subscribe_loco_locked-cases b locos) [
  | inl (e, p) ↦ rw p q
  | inr (inl (e, l, p)) ↦ rw p (record {
    no_dup = append-NoDup b locos q.no_dup e;
    length_le = omega (arith, l, length-append locos (b ∷ []));
  })
  | inr (inr (e, (y, ys, s, l, p))) ↦ rw p (record {
    no_dup = append-NoDup b ys (rw s at q.no_dup).1 (contains-tail b y ys (rw s at e));
    length_le =
        let h : length (y ∷ ys) ≤ max_subscriptions = rw s at q.length_le in
        omega (arith, length-append ys (b ∷ []), h);
  })
]

-- Afterwards the queue has what it had and the new address, less the one that had to leave.
pub contains-subscribe :
    (a b : ℕ) (locos : List ℕ)
    → NoDup locos
    → contains a (subscribe_loco_locked locos b).0
      ≡ (not (is_trimmed a (subscribe_loco_locked locos b).1) && (contains a locos || b == a))
contains-subscribe a b locos d = elim (subscribe_loco_locked-cases b locos) [
  | inl (e, p) ↦ rw p (elim (Bool-cases (b == a)) [
    | inl q ↦ ground (arith, e, beq_eq b a q)
    | inr q ↦ ground (arith, q)
  ])
  | inr (inl (e, l, p)) ↦ rw p (contains-append a b locos)
  | inr (inr (e, (y, ys, s, l, p))) ↦
      rw p (rw s (contains-trimmed a b y ys (rw s at d) (rw s at e)))
]
