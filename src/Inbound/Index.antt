-- ===== src/Inbound/Index.antt =====
-- The subscriber index agrees with the clients' subscription queues.
use bigfred.Base.{
  ℕ, ◌≡◌, ◌≤◌, refl, sym, ◌∙◌, false, not, ◌&&◌, ◌||◌, String, some, List, [], ◌∷◌, ◌++◌, Map,
  arith, Bool-cases, Option-cases, inl, inr, if◌then◌else◌, has, lookup, insert, erase, maybe,
  length, contains, keep, ◌==◌, nat_key, string_key, lookup-insert, lookup-erase,
}
use bigfred.Inbound.Types.{Client, ClientRegistry}
use bigfred.Inbound.Registry.{
  add_subscriber, remove_subscriber, remove_subscriptions, max_subscriptions, subscribed_to,
  is_subscriber,
}

-- A queue of a client: no address twice, and no more than the Z21 protocol's limit.
abbrev pub NoDup : List ℕ → Type 0
NoDup [] = Unit
NoDup (a ∷ rest) = (contains a rest ≡ false) × NoDup rest

pub record IsQueue (locos : List ℕ) : Type 0 where
  pub no_dup : NoDup locos
  pub length_le : length locos ≤ max_subscriptions

-- The index lists a key under an address exactly when the key's client subscribes to the address.
pub record IsIndexed (r : ClientRegistry) : Type 0 where
  pub agree : (addr : ℕ) (key : String) → is_subscriber addr key r ≡ subscribed_to key addr r
  pub queues :
      (key : String) (c : Client) → lookup key r.clients ≡ some c → IsQueue c.subscribed_locos

pub is_subscriber-add :
    (a b : ℕ) (k j : String) (r : ClientRegistry)
    → is_subscriber a k (add_subscriber b j r) ≡ (b == a && j == k || is_subscriber a k r)
unfolding is_subscriber add_subscriber lookup
is_subscriber-add a b k j r =
    let set = maybe [] (λ m. m) (lookup b r.subscribers) in
    ground (arith, lookup-insert a b (insert j tt set) r.subscribers, lookup-insert k j tt set)

no_key : (k : String) (set : Map String (Unit {0})) → length set ≡ 0 → has k set ≡ false
unfolding lookup
no_key k [] h = refl
no_key k (x ∷ set) h = absurd (omega (arith, h))

pub is_subscriber-remove :
    (a b : ℕ) (k j : String) (r : ClientRegistry)
    → is_subscriber a k (remove_subscriber b j r) ≡ (not (b == a && j == k) && is_subscriber a k r)
unfolding is_subscriber remove_subscriber
is_subscriber-remove a b k j r = elim (Option-cases (lookup b r.subscribers)) [
  | inl e ↦ rw (e, remove_subscriber) (ground (arith, e))
  | inr (set, e) ↦
      rw (e, remove_subscriber)
        (ground (
          arith,
          e,
          lookup-erase a b r.subscribers,
          lookup-insert a b (erase j set) r.subscribers,
          lookup-erase k j set,
          no_key k (erase j set),
        ))
]

pub is_subscriber-remove_subscriptions :
    (a : ℕ) (k j : String) (locos : List ℕ) (r : ClientRegistry)
    → is_subscriber a k (remove_subscriptions locos j r)
      ≡ (not (contains a locos && j == k) && is_subscriber a k r)
unfolding remove_subscriptions contains
is_subscriber-remove_subscriptions a k j [] r = refl
is_subscriber-remove_subscriptions a k j (b ∷ locos) r = ground (
  arith,
  is_subscriber-remove_subscriptions a k j locos (remove_subscriber b j r),
  is_subscriber-remove a b k j r,
)

pub remove_subscriptions-clients :
    (j : String) (locos : List ℕ) (r : ClientRegistry)
    → (remove_subscriptions locos j r).clients ≡ r.clients
unfolding remove_subscriptions remove_subscriber
remove_subscriptions-clients j [] r = refl
remove_subscriptions-clients j (b ∷ locos) r =
    remove_subscriptions-clients j locos (remove_subscriber b j r) ∙ ground arith

pub contains-keep :
    (a b : ℕ) (locos : List ℕ)
    → contains a (keep (λ x. not (x == b)) locos) ≡ (not (a == b) && contains a locos)
unfolding contains
contains-keep a b [] = ground arith
contains-keep a b (x ∷ locos) = ground (arith, contains-keep a b locos)

pub keep-NoDup : (b : ℕ) (locos : List ℕ) → NoDup locos → NoDup (keep (λ x. not (x == b)) locos)
unfolding contains
keep-NoDup b [] d = tt
keep-NoDup b (x ∷ locos) d = ground (arith, contains-keep x b locos, keep-NoDup b locos d.1)

pub contains-append :
    (a b : ℕ) (locos : List ℕ) → contains a (locos ++ b ∷ []) ≡ (contains a locos || b == a)
unfolding contains
contains-append a b [] = ground arith
contains-append a b (x ∷ locos) = ground (arith, contains-append a b locos)

pub append-NoDup :
    (b : ℕ) (locos : List ℕ) → NoDup locos → contains b locos ≡ false → NoDup (locos ++ b ∷ [])
unfolding contains
append-NoDup b [] d h = (refl, tt)
append-NoDup b (x ∷ locos) d h = ground (arith, contains-append x b locos, append-NoDup b locos d.1)

module _ (r t : ClientRegistry) (key : String) (c : Client) where
  -- A client is written, and the index follows.
  pub insert-IsIndexed :
      IsIndexed r
      → t.clients ≡ insert key c r.clients
      → IsQueue c.subscribed_locos
      → ((a : ℕ) (k : String)
          → is_subscriber a k t
            ≡ (if key == k then contains a c.subscribed_locos else is_subscriber a k r))
      → IsIndexed t
  unfolding subscribed_to
  insert-IsIndexed v e q h = record {
    agree = λ a k. ground (arith, e, h a k, v.agree a k, lookup-insert k key c r.clients);
    queues = λ k d f. elim (Bool-cases (key == k)) [
      | inl p ↦
          let same : c ≡ d = ground (arith, e, f, p, lookup-insert k key c r.clients) in
          rw (sym same) q
      | inr p ↦ v.queues k d (ground (arith, e, f, p, lookup-insert k key c r.clients))
    ];
  }
