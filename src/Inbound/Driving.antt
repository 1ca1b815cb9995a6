-- ===== src/Inbound/Driving.antt =====
-- The locomotive that a handset drives.
use bigfred.Base.{
  ℕ, ◌≡◌, ◌≢◌, ◌⊎◌, refl, sym, ap, ◌∙◌, true, false, not, String, Option, none, some, List, [], ◌∷◌,
  arith, Option-cases, inl, inr, has, lookup, contains, keep, ◌==◌, nat_key, string_key, beq_ne,
  lookup-insert_self,
}
use bigfred.Inbound.Types.{Client, ClientRegistry}
use bigfred.Inbound.Registry.{
  put_client, add_subscriber, subscribe_loco_locked, drop_trimmed, subscribe_client,
  set_last_active_loco, unsubscribe_loco, without_loco, last_loco, current_loco_locked,
  current_loco, subscribed_to,
}
use bigfred.Inbound.Index.{contains-append, contains-keep}
use bigfred.Inbound.Operations.{add_subscriber-clients, remove_subscriber-clients}
use bigfred.Inbound.Queues.{subscribe_loco_locked-cases}

subscribed_is_in : (b : ℕ) (locos : List ℕ) → contains b (subscribe_loco_locked locos b).0 ≡ true
subscribed_is_in b locos = elim (subscribe_loco_locked-cases b locos) [
  | inl (e, p) ↦ rw p e
  | inr (inl (e, l, p)) ↦ rw p (ground (arith, contains-append b b locos))
  | inr (inr (e, (y, ys, s, l, p))) ↦ rw p (ground (arith, contains-append b b ys))
]

drop_trimmed-clients :
    (t : Option ℕ) (key : String) (r : ClientRegistry) → (drop_trimmed t key r).clients ≡ r.clients
unfolding drop_trimmed
drop_trimmed-clients none key r = refl
drop_trimmed-clients (some t) key r = remove_subscriber-clients t key r

lookup-subscribe_client :
    (c : Client) (key : String) (addr : ℕ) (r : ClientRegistry)
    → lookup key (subscribe_client c key addr r).clients
      ≡ some (record c { subscribed_locos = (subscribe_loco_locked c.subscribed_locos addr).0 })
unfolding subscribe_client
lookup-subscribe_client c key addr r =
    let s = subscribe_loco_locked c.subscribed_locos addr in
    let r1 = put_client key (record c { subscribed_locos = s.0 }) r in
    ap (lookup key) (
      drop_trimmed-clients s.1 key (add_subscriber addr key r1)
      ∙ add_subscriber-clients addr key r1)
    ∙ lookup-insert_self key (record c { subscribed_locos = s.0 }) r.clients

-- Where the client exists and the address is not 0, SetLastActiveLoco makes the address the client's
-- current locomotive and one of its subscriptions, however full the queue was.
pub set_last_active_loco-drives :
    (key : String) (addr : ℕ) (r : ClientRegistry)
    → has key r.clients ≡ true
    → addr ≢ 0
    → let t = set_last_active_loco key addr r in
      (current_loco key t ≡ addr) × (subscribed_to key addr t ≡ true)
unfolding set_last_active_loco current_loco current_loco_locked subscribed_to
set_last_active_loco-drives key addr r h n = elim (Option-cases (lookup key r.clients)) [
  | inl e ↦ absurd (ground (arith, e, h))
  | inr (c, e) ↦
      let d : Client = record c { last_active_loco = addr } in
      rw (beq_ne addr 0 n) (
        rw (e, set_last_active_loco)
          (rw (lookup-subscribe_client d key addr r)
            (rw (beq_ne addr 0 n) (refl, subscribed_is_in addr c.subscribed_locos))))
]

-- The last of a queue is 0 or in it.
last_loco-in : (locos : List ℕ) → (last_loco locos ≡ 0) ⊎ (contains (last_loco locos) locos ≡ true)
unfolding last_loco contains
last_loco-in [] = inl refl
last_loco-in (a ∷ []) = inr (ground arith)
last_loco-in (a ∷ b ∷ locos) = ground (arith, last_loco-in (b ∷ locos))

current_without_loco :
    (addr : ℕ) (c : Client) → addr ≢ 0 → current_loco_locked (without_loco addr c) ≢ addr
unfolding current_loco_locked
current_without_loco addr c n =
    let kept = keep (λ a. not (a == addr)) c.subscribed_locos in
    ground (arith, n, last_loco-in kept, contains-keep (last_loco kept) addr c.subscribed_locos)

-- After UnsubscribeLoco of an address that is not 0, the address is not the client's current
-- locomotive and not among its subscriptions.
pub unsubscribe_loco-stops_driving :
    (key : String) (addr : ℕ) (r : ClientRegistry)
    → addr ≢ 0
    → let t = unsubscribe_loco key addr r in
      (current_loco key t ≢ addr) × (subscribed_to key addr t ≡ false)
unfolding unsubscribe_loco current_loco subscribed_to
unsubscribe_loco-stops_driving key addr r n = elim (Option-cases (lookup key r.clients)) [
  | inl e ↦ rw (e, unsubscribe_loco) (rw e ((λ p. n (sym p)), refl))
  | inr (c, e) ↦
      let r1 = put_client key (without_loco addr c) r in
      rw (e, unsubscribe_loco)
        (rw (remove_subscriber-clients addr key r1) (
          rw (lookup-insert_self key (without_loco addr c) r.clients) (
            current_without_loco addr c n,
            ground (arith, contains-keep addr addr c.subscribed_locos),
          )))
]
