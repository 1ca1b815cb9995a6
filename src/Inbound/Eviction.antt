-- ===== src/Inbound/Eviction.antt =====
-- EvictIdle: which clients stay.
use bigfred.Base.{
  ℕ, ◌≡◌, ◌⊎◌, refl, ap, Bool, true, false, ◌&&◌, String, Option, none, List, [], ◌∷◌, Map, arith,
  Bool-cases, Option-cases, inl, inr, if◌then◌else◌, ltb, has, lookup, maybe, contains, ◌==◌,
  nat_key, string_key, beq_eq, lookup-erase,
}
use bigfred.Inbound.Types.{Client, ClientRegistry}
use bigfred.Inbound.Registry.{remove, keys, evict_keys, evict_idle}
use bigfred.Inbound.Index.{remove_subscriptions-clients}

-- The client has not been seen since the cutoff.
abbrev pub is_stale : ℕ → Option Client → Bool
is_stale cutoff found = maybe false (λ (c : Client). ltb c.last_seen cutoff) found

contains-keys : (k : String) (m : Map String Client) → contains k (keys m) ≡ has k m
unfolding contains lookup
contains-keys k [] = refl
contains-keys k ((j, c) ∷ m) = ground (arith, contains-keys k m)

lookup-remove :
    (k key : String) (r : ClientRegistry)
    → lookup k (remove key r).clients ≡ (if key == k then none else lookup k r.clients)
unfolding remove
lookup-remove k key r = elim (Option-cases (lookup key r.clients)) [
  | inl e ↦
      rw (e, remove)
        (elim (Bool-cases (key == k)) [
          | inl p ↦ rw p (rw (beq_eq key k p) at e)
          | inr p ↦ rw p refl
        ])
  | inr (c, e) ↦
      rw (e, remove)
        (rw (remove_subscriptions-clients key c.subscribed_locos r) (lookup-erase k key r.clients))
]

lookup-evict_keys :
    (cutoff : ℕ) (k : String) (ks : List String) (r : ClientRegistry)
    → lookup k (evict_keys cutoff ks r).0.clients
      ≡ (if contains k ks && is_stale cutoff (lookup k r.clients) then none else lookup k r.clients)
unfolding evict_keys contains
lookup-evict_keys cutoff k [] r = refl
lookup-evict_keys cutoff k (key ∷ rest) r = ground (
  arith,
  (λ (p : (key == k) ≡ true). ap (λ j. lookup j r.clients) (beq_eq key k p)),
  lookup-evict_keys cutoff k rest r,
  lookup-evict_keys cutoff k rest (remove key r),
  lookup-remove k key r,
)

listed-evict_keys :
    (cutoff : ℕ) (k : String) (ks : List String) (r : ClientRegistry)
    → contains k (evict_keys cutoff ks r).1
      ≡ (contains k ks && is_stale cutoff (lookup k r.clients))
unfolding evict_keys contains
listed-evict_keys cutoff k [] r = refl
listed-evict_keys cutoff k (key ∷ rest) r = ground (
  arith,
  (λ (p : (key == k) ≡ true). ap (λ j. lookup j r.clients) (beq_eq key k p)),
  listed-evict_keys cutoff k rest r,
  listed-evict_keys cutoff k rest (remove key r),
  lookup-remove k key r,
)

-- EvictIdle removes a client, and lists its key, exactly when the client was last seen before the
-- cutoff. Every other client stays as it is.
pub evict_idle-takes_stale :
    (cutoff : ℕ) (k : String) (r : ClientRegistry)
    → let t = evict_idle cutoff r in
      ((is_stale cutoff (lookup k r.clients) ≡ true)
        × (lookup k t.0.clients ≡ none)
        × (contains k t.1 ≡ true))
      ⊎ ((is_stale cutoff (lookup k r.clients) ≡ false)
          × (lookup k t.0.clients ≡ lookup k r.clients)
          × (contains k t.1 ≡ false))
unfolding evict_idle
evict_idle-takes_stale cutoff k r = ground (
  arith,
  contains-keys k r.clients,
  lookup-evict_keys cutoff k (keys r.clients) r,
  listed-evict_keys cutoff k (keys r.clients) r,
)
