-- ===== src/Inbound/Methods.antt =====
-- Every method of ClientRegistry keeps the subscriber index in agreement with the queues.
use bigfred.Base.{
  ℕ, ◌≡◌, refl, sym, ◌∙◌, true, false, String, Option, none, List, [], ◌∷◌, arith, Bool-cases,
  Option-cases, inl, inr, ltb, lookup, insert, erase, maybe, contains, ◌==◌, nat_key, string_key,
  beq_eq, ℤ,
}
use bigfred.Inbound.Types.{Client, ClientRegistry, UdpAddr, new_client}
use bigfred.Inbound.Registry.{
  put_client, update_client, register, remove, unsubscribe_loco, subscribe_loco,
  set_last_active_loco, subscribed_to, is_subscriber, mark_seen_dirty, clear_seen_dirty, evict_keys,
}
use bigfred.Inbound.Index.{IsIndexed, insert-IsIndexed}
use bigfred.Inbound.Operations.{
  subscribed_to-none, is_subscriber-clients, put_client-IsIndexed, subscribe_client-IsIndexed,
  unsubscribe_client-IsIndexed, removed-IsIndexed,
}

-- The index reads the clients and the subscribers only.
same-IsIndexed :
    (r t : ClientRegistry)
    → t.clients ≡ r.clients
    → t.subscribers ≡ r.subscribers
    → IsIndexed r
    → IsIndexed t
unfolding is_subscriber subscribed_to
same-IsIndexed r t e f v = record {
  agree = λ a k. rw (e, f) (v.agree a k);
  queues = λ k d g. v.queues k d (rw e at g);
}

module _ (key : String) (r : ClientRegistry) (v : IsIndexed r) where
  pub update_client-IsIndexed :
      (f : Client → Client)
      → ((c : Client) → (f c).subscribed_locos ≡ c.subscribed_locos)
      → IsIndexed (update_client f key r)
  unfolding update_client
  update_client-IsIndexed f h = elim (Option-cases (lookup key r.clients)) [
    | inl e ↦ rw (e, update_client) v
    | inr (c, e) ↦ rw (e, update_client) (put_client-IsIndexed r v key c e (f c) (h c))
  ]

  new_client-IsIndexed :
      (protocol endpoint : String) (first : UdpAddr) (now : ℕ)
      → lookup key r.clients ≡ none
      → IsIndexed (put_client key (new_client key protocol endpoint first now) r)
  unfolding contains
  new_client-IsIndexed protocol endpoint first now e =
      let d = new_client key protocol endpoint first now in
      insert-IsIndexed r (put_client key d r) key d v refl
        (record { no_dup = tt; length_le = omega arith })
        (λ a k. elim (Bool-cases (key == k)) [
          | inl p ↦ rw p (
              is_subscriber-clients a k r (insert key d r.clients)
              ∙ (v.agree a k ∙ subscribed_to-none a k r (rw (sym (beq_eq key k p)) e)))
          | inr p ↦ rw p (is_subscriber-clients a k r (insert key d r.clients))
        ])

  pub register-IsIndexed :
      (protocol endpoint : String) (first : UdpAddr) (next : Option UdpAddr) (now : ℕ)
      → IsIndexed (register key protocol endpoint first next now r)
  unfolding register
  register-IsIndexed protocol endpoint first next now = elim (Option-cases (lookup key r.clients)) [
    | inl e ↦ rw (e, register) (new_client-IsIndexed protocol endpoint first now e)
    | inr (c, e) ↦ rw (e, register) (put_client-IsIndexed r v key c e _ refl)
  ]

  pub remove-IsIndexed : IsIndexed (remove key r)
  unfolding remove
  remove-IsIndexed = elim (Option-cases (lookup key r.clients)) [
    | inl e ↦ rw (e, remove) v
    | inr (c, e) ↦ rw (e, remove) (removed-IsIndexed r v key c e)
  ]

  pub unsubscribe_loco-IsIndexed : (addr : ℕ) → IsIndexed (unsubscribe_loco key addr r)
  unfolding unsubscribe_loco
  unsubscribe_loco-IsIndexed addr = elim (Option-cases (lookup key r.clients)) [
    | inl e ↦ rw (e, unsubscribe_loco) v
    | inr (c, e) ↦ rw (e, unsubscribe_loco) (unsubscribe_client-IsIndexed r v key c e addr)
  ]

  pub subscribe_loco-IsIndexed : (addr : ℕ) → IsIndexed (subscribe_loco key addr r)
  unfolding subscribe_loco
  subscribe_loco-IsIndexed addr = elim (Option-cases (lookup key r.clients)) [
    | inl e ↦ rw (e, subscribe_loco) v
    | inr (c, e) ↦ rw (e, subscribe_loco) (subscribe_client-IsIndexed r v key c e addr c refl)
  ]

  pub set_last_active_loco-IsIndexed : (addr : ℕ) → IsIndexed (set_last_active_loco key addr r)
  unfolding set_last_active_loco
  set_last_active_loco-IsIndexed addr = elim (Bool-cases (addr == 0)) [
    | inl z ↦ rw (z, set_last_active_loco) v
    | inr z ↦ elim (Option-cases (lookup key r.clients)) [
      | inl e ↦ rw (z, e, set_last_active_loco) v
      | inr (c, e) ↦
          rw (z, e, set_last_active_loco)
            (subscribe_client-IsIndexed r v key c e addr (record c { last_active_loco = addr })
              refl)
    ]
  ]

pub mark_seen_dirty-IsIndexed :
    (key : String) (ts : ℤ) (r : ClientRegistry)
    → IsIndexed r
    → IsIndexed (mark_seen_dirty key ts r)
unfolding mark_seen_dirty
mark_seen_dirty-IsIndexed key ts r v =
    let r1 = update_client (λ c. record c { seen_dirty = true; pending_seen = ts }) key r in
    same-IsIndexed r1 (mark_seen_dirty key ts r) refl refl (
      update_client-IsIndexed key r v (λ c. record c { seen_dirty = true; pending_seen = ts })
        (λ c. refl))

pub clear_seen_dirty-IsIndexed :
    (keys : List String) (r : ClientRegistry) → IsIndexed r → IsIndexed (clear_seen_dirty keys r)
unfolding clear_seen_dirty
clear_seen_dirty-IsIndexed [] r v = v
clear_seen_dirty-IsIndexed (key ∷ rest) r v =
    let r1 = record r { dirty_seen = erase key r.dirty_seen } in
    clear_seen_dirty-IsIndexed rest _ (
      update_client-IsIndexed key r1 (same-IsIndexed r r1 refl refl v)
        (λ c. record c { seen_dirty = false }) (λ c. refl))

pub evict_keys-IsIndexed :
    (cutoff : ℕ) (keys : List String) (r : ClientRegistry)
    → IsIndexed r
    → IsIndexed (evict_keys cutoff keys r).0
unfolding evict_keys
evict_keys-IsIndexed cutoff [] r v = v
evict_keys-IsIndexed cutoff (key ∷ rest) r v =
    elim (Bool-cases
      (maybe false (λ (c : Client). ltb c.last_seen cutoff) (lookup key r.clients))) [
        | inl e ↦ rw e (evict_keys-IsIndexed cutoff rest (remove key r) (remove-IsIndexed key r v))
        | inr e ↦ rw e (evict_keys-IsIndexed cutoff rest r v)
      ]
