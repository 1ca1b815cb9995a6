-- ===== src/Inbound/Operations.antt =====
-- What the methods of ClientRegistry do with one client: the index stays in agreement with the queues.
use bigfred.Base.{
  ℕ, ◌≡◌, refl, sym, ◌∙◌, true, false, not, String, none, some, Map, arith, Option-cases, inl, inr,
  lookup, insert, erase, length-keep-le, contains, ◌==◌, nat_key, string_key, beq_eq, lookup-erase,
}
use bigfred.Inbound.Types.{Client, ClientRegistry}
use bigfred.Inbound.Registry.{
  put_client, add_subscriber, remove_subscriber, remove_subscriptions, subscribe_loco_locked,
  without_loco, drop_trimmed, subscribe_client, subscribed_to, is_subscriber,
}
use bigfred.Inbound.Index.{
  IsQueue, IsIndexed, insert-IsIndexed, contains-keep, keep-NoDup, is_subscriber-add,
  is_subscriber-remove, is_subscriber-remove_subscriptions, remove_subscriptions-clients,
}
use bigfred.Inbound.Queues.{subscribe-IsQueue, contains-subscribe}

subscribed_to-some :
    (a : ℕ) (k : String) (r : ClientRegistry) (c : Client)
    → lookup k r.clients ≡ some c
    → subscribed_to k a r ≡ contains a c.subscribed_locos
unfolding subscribed_to
subscribed_to-some a k r c e = rw e refl

pub subscribed_to-none :
    (a : ℕ) (k : String) (r : ClientRegistry)
    → lookup k r.clients ≡ none
    → subscribed_to k a r ≡ false
unfolding subscribed_to
subscribed_to-none a k r e = rw e refl

-- The registry with other clients has the same index.
pub is_subscriber-clients :
    (a : ℕ) (k : String) (r : ClientRegistry) (m : Map String Client)
    → is_subscriber a k (record r { clients = m }) ≡ is_subscriber a k r
unfolding is_subscriber
is_subscriber-clients a k r m = refl

pub add_subscriber-clients :
    (a : ℕ) (k : String) (r : ClientRegistry) → (add_subscriber a k r).clients ≡ r.clients
unfolding add_subscriber
add_subscriber-clients a k r = refl

pub remove_subscriber-clients :
    (a : ℕ) (k : String) (r : ClientRegistry) → (remove_subscriber a k r).clients ≡ r.clients
unfolding remove_subscriber
remove_subscriber-clients a k r = ground arith

module _ (r : ClientRegistry) (v : IsIndexed r) (key : String) (c : Client)
    (e : lookup key r.clients ≡ some c) where
  -- What the index says of the client.
  agree_at :
      (a : ℕ) (k : String) → (key == k) ≡ true → is_subscriber a k r ≡ contains a c.subscribed_locos
  agree_at a k p = rw (sym (beq_eq key k p)) (v.agree a key ∙ subscribed_to-some a key r c e)

  -- The client is written, its queue as it was.
  pub put_client-IsIndexed :
      (d : Client) → d.subscribed_locos ≡ c.subscribed_locos → IsIndexed (put_client key d r)
  put_client-IsIndexed d q =
      insert-IsIndexed r (put_client key d r) key d v refl (rw q (v.queues key c e)) (λ a k.
        ground (arith, is_subscriber-clients a k r (insert key d r.clients), agree_at a k, q))

  pub subscribe_client-IsIndexed :
      (addr : ℕ) (d : Client)
      → d.subscribed_locos ≡ c.subscribed_locos
      → IsIndexed (subscribe_client d key addr r)
  unfolding subscribe_client drop_trimmed
  subscribe_client-IsIndexed addr d q =
      let s = subscribe_loco_locked d.subscribed_locos addr in
      let d1 : Client = record d { subscribed_locos = s.0 } in
      let r1 = put_client key d1 r in
      let queue : IsQueue d.subscribed_locos = rw q (v.queues key c e) in
      let holds = λ (a : ℕ). contains-subscribe a addr d.subscribed_locos queue.no_dup in
      elim (Option-cases s.1) [
        | inl z ↦
            rw (z, drop_trimmed)
              (insert-IsIndexed r (add_subscriber addr key r1) key d1 v
                (add_subscriber-clients addr key r1)
                (subscribe-IsQueue addr d.subscribed_locos queue)
                (λ a k. ground (
                  arith,
                  z,
                  q,
                  holds a,
                  agree_at a k,
                  is_subscriber-clients a k r r1.clients,
                  is_subscriber-add a addr k key r1,
                )))
        | inr (t, z) ↦
            rw (z, drop_trimmed)
              (insert-IsIndexed r (remove_subscriber t key (add_subscriber addr key r1)) key d1 v
                (remove_subscriber-clients t key (add_subscriber addr key r1)
                  ∙ add_subscriber-clients addr key r1)
                (subscribe-IsQueue addr d.subscribed_locos queue)
                (λ a k. ground (
                  arith,
                  z,
                  q,
                  holds a,
                  agree_at a k,
                  is_subscriber-clients a k r r1.clients,
                  is_subscriber-add a addr k key r1,
                  is_subscriber-remove a t k key (add_subscriber addr key r1),
                )))
      ]

  pub unsubscribe_client-IsIndexed :
      (addr : ℕ) → IsIndexed (remove_subscriber addr key (put_client key (without_loco addr c) r))
  unsubscribe_client-IsIndexed addr =
      let r1 = put_client key (without_loco addr c) r in
      let queue : IsQueue c.subscribed_locos = v.queues key c e in
      insert-IsIndexed r (remove_subscriber addr key r1) key (without_loco addr c) v
        (remove_subscriber-clients addr key r1)
        (record {
          no_dup = keep-NoDup addr c.subscribed_locos queue.no_dup;
          length_le =
              omega
                (arith, queue.length_le, length-keep-le (λ x. not (x == addr)) c.subscribed_locos);
        })
        (λ a k. ground (
          arith,
          agree_at a k,
          contains-keep a addr c.subscribed_locos,
          is_subscriber-clients a k r r1.clients,
          is_subscriber-remove a addr k key r1,
        ))

  pub removed-IsIndexed :
      let r1 = remove_subscriptions c.subscribed_locos key r in
      IsIndexed (record r1 { clients = erase key r1.clients })
  unfolding subscribed_to
  removed-IsIndexed =
      let r1 = remove_subscriptions c.subscribed_locos key r in
      let r2 = record r1 { clients = erase key r1.clients } in
      let kept = remove_subscriptions-clients key c.subscribed_locos r in
      record {
        agree = λ a k. ground (
          arith,
          kept,
          agree_at a k,
          v.agree a k,
          is_subscriber-clients a k r1 r2.clients,
          is_subscriber-remove_subscriptions a k key c.subscribed_locos r,
          lookup-erase k key r.clients,
        );
        queues = λ k d f. v.queues k d (ground (arith, kept, f, lookup-erase k key r.clients));
      }
