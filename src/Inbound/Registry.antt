-- ===== src/Inbound/Registry.antt =====
-- registry.go: the methods of ClientRegistry. Each runs under `mu` from end to end, so each is one step.
use bigfred.Base.{
  ℕ, ◌+◌, ℤ, Bool, true, false, not, ◌||◌, String, Option, none, some, List, [], ◌∷◌, ◌++◌, Map,
  lookup, insert, erase, has, is_some, length, contains, keep, ltb, leb, ◌==◌, nat_key, string_key,
  if◌then◌else◌, maybe,
}
use bigfred.Inbound.Types.{
  UdpAddr, zero_addr, Net, RemoteSessionWire, Client, ClientRegistry, new_client, client_key,
  endpoint_from_addr,
}

unfoldable pub new_client_registry : ClientRegistry
new_client_registry = record { clients = []; subscribers = []; dirty_seen = [] }

abbrev pub put_client : String → Client → ClientRegistry → ClientRegistry
put_client key c r = record r { clients = insert key c r.clients }

-- `if c, ok := r.clients[key]; ok { … }`, for a body that writes the client only.
unfoldable pub update_client : (Client → Client) → String → ClientRegistry → ClientRegistry
update_client f key r = elim (lookup key r.clients) [ none ↦ r | some c ↦ put_client key (f c) r ]

-- addSubscriberLocked
unfoldable pub add_subscriber : ℕ → String → ClientRegistry → ClientRegistry
add_subscriber addr key r =
    let set = maybe [] (λ m. m) (lookup addr r.subscribers) in
    record r { subscribers = insert addr (insert key tt set) r.subscribers }

-- removeSubscriberLocked
unfoldable pub remove_subscriber : ℕ → String → ClientRegistry → ClientRegistry
remove_subscriber addr key r = elim (lookup addr r.subscribers) [
  | none ↦ r
  | some set ↦
      if length (erase key set) == 0
      then record r { subscribers = erase addr r.subscribers }
      else record r { subscribers = insert addr (erase key set) r.subscribers }
]

-- The loop of Remove and EvictIdle over a client's subscriptions.
unfoldable pub remove_subscriptions : List ℕ → String → ClientRegistry → ClientRegistry
remove_subscriptions [] key r = r
remove_subscriptions (addr ∷ rest) key r =
    remove_subscriptions rest key (remove_subscriber addr key r)

abbrev pub max_subscriptions : ℕ
max_subscriptions = 16

-- The append of subscribeLocoLocked: the queue, and the address that had to leave it.
abbrev pub trim : List ℕ → List ℕ × Option ℕ
trim [] = ([], none)
trim (oldest ∷ rest) =
    if ltb max_subscriptions (length (oldest ∷ rest))
    then (rest, some oldest)
    else (oldest ∷ rest, none)

-- subscribeLocoLocked: the queue, and the address that had to leave it.
unfoldable pub subscribe_loco_locked : List ℕ → ℕ → List ℕ × Option ℕ
subscribe_loco_locked locos addr =
    if contains addr locos then (locos, none) else trim (locos ++ addr ∷ [])

-- The last element, or 0.
unfoldable pub last_loco : List ℕ → ℕ
last_loco [] = 0
last_loco (addr ∷ []) = addr
last_loco (addr ∷ next ∷ rest) = last_loco (next ∷ rest)

-- currentLocoLocked
unfoldable pub current_loco_locked : Client → ℕ
current_loco_locked c =
    if c.last_active_loco == 0 then last_loco c.subscribed_locos else c.last_active_loco

-- Touch and TouchByEndpoint share this part.
unfoldable pub register :
    String → String → String → UdpAddr → Option UdpAddr → ℕ → ClientRegistry → ClientRegistry
register key protocol endpoint first next now r = elim (lookup key r.clients) [
  | none ↦ put_client key (new_client key protocol endpoint first now) r
  | some c ↦ put_client key (record c { addr = maybe c.addr (λ a. a) next; last_seen = now }) r
]

unfoldable pub touch : Net → String → UdpAddr → ℕ → Bool → ClientRegistry → ClientRegistry
touch net protocol addr now ip_stickiness r =
    let endpoint = endpoint_from_addr net (some addr) ip_stickiness in
    register (client_key protocol endpoint) protocol endpoint addr (some addr) now r

-- `remote` is none for a nil `net.Addr`.
unfoldable pub touch_by_endpoint :
    String → String → Option UdpAddr → ℕ → ClientRegistry → ClientRegistry
touch_by_endpoint protocol endpoint remote now r =
    register (client_key protocol endpoint) protocol endpoint (maybe zero_addr (λ a. a) remote)
      remote now r

unfoldable pub set_idle_braked : String → Bool → ClientRegistry → ClientRegistry
set_idle_braked key braked r = update_client (λ c. record c { idle_braked = braked }) key r

unfoldable pub clear_idle_braked : String → ClientRegistry → ClientRegistry
clear_idle_braked key r = set_idle_braked key false r

unfoldable pub get : String → ClientRegistry → Option Client
get key r = lookup key r.clients

-- Remove, and the body of EvictIdle's loop.
unfoldable pub remove : String → ClientRegistry → ClientRegistry
remove key r = elim (lookup key r.clients) [
  | none ↦ r
  | some c ↦
      let r1 = remove_subscriptions c.subscribed_locos key r in
      record r1 { clients = erase key r1.clients }
]

unfoldable pub set_session : String → Option RemoteSessionWire → ClientRegistry → ClientRegistry
set_session key session r = update_client (λ c. record c { session = session }) key r

unfoldable pub session : String → ClientRegistry → Option RemoteSessionWire
session key r = maybe none (λ (c : Client). c.session) (lookup key r.clients)

unfoldable pub is_paired : String → ClientRegistry → Bool
is_paired key r = is_some (session key r)

unfoldable pub set_heartbeat_monitor : String → Bool → ClientRegistry → ClientRegistry
set_heartbeat_monitor key on r = update_client (λ c. record c { heartbeat_monitor = on }) key r

-- The client without a subscription.
abbrev pub without_loco : ℕ → Client → Client
without_loco addr c = record c {
  subscribed_locos = keep (λ a. not (a == addr)) c.subscribed_locos;
  last_active_loco = if c.last_active_loco == addr then 0 else c.last_active_loco;
}

unfoldable pub unsubscribe_loco : String → ℕ → ClientRegistry → ClientRegistry
unsubscribe_loco key addr r = elim (lookup key r.clients) [
  | none ↦ r
  | some c ↦ remove_subscriber addr key (put_client key (without_loco addr c) r)
]

-- The index after an address may have had to leave the queue.
unfoldable pub drop_trimmed : Option ℕ → String → ClientRegistry → ClientRegistry
drop_trimmed none key r = r
drop_trimmed (some trimmed) key r = remove_subscriber trimmed key r

-- What SubscribeLoco and SetLastActiveLoco do with a client that exists.
unfoldable pub subscribe_client : Client → String → ℕ → ClientRegistry → ClientRegistry
subscribe_client c key addr r =
    let (locos, trimmed) = subscribe_loco_locked c.subscribed_locos addr in
    drop_trimmed trimmed key
      (add_subscriber addr key (put_client key (record c { subscribed_locos = locos }) r))

unfoldable pub subscribe_loco : String → ℕ → ClientRegistry → ClientRegistry
subscribe_loco key addr r = elim (lookup key r.clients) [
  | none ↦ r
  | some c ↦ subscribe_client c key addr r
]

unfoldable pub set_last_active_loco : String → ℕ → ClientRegistry → ClientRegistry
set_last_active_loco key addr r = if addr == 0 then r else elim (lookup key r.clients) [
  | none ↦ r
  | some c ↦ subscribe_client (record c { last_active_loco = addr }) key addr r
]

unfoldable pub current_loco : String → ClientRegistry → ℕ
current_loco key r = maybe 0 current_loco_locked (lookup key r.clients)

unfoldable pub subscribed_to : String → ℕ → ClientRegistry → Bool
subscribed_to key addr r =
    maybe false (λ (c : Client). contains addr c.subscribed_locos) (lookup key r.clients)

-- Whether a key is among `Subscribers(addr)`.
unfoldable pub is_subscriber : ℕ → String → ClientRegistry → Bool
is_subscriber addr key r = maybe false (has key) (lookup addr r.subscribers)

abbrev pub keys {ℓ} : {V : Type ℓ} → Map String V → List String
keys [] = []
keys ((k, _) ∷ m) = k ∷ keys m

unfoldable pub subscribers : ℕ → ClientRegistry → List String
subscribers addr r = maybe [] keys (lookup addr r.subscribers)

-- `now` is the time of the call.
unfoldable pub needs_sync : String → ℕ → ℕ → ClientRegistry → Bool
needs_sync key stale now r =
    maybe false (λ (c : Client). c.synced_at == 0 || leb (c.synced_at + stale) now)
      (lookup key r.clients)

unfoldable pub mark_synced : String → ℕ → ClientRegistry → ClientRegistry
mark_synced key now r = update_client (λ c. record c { synced_at = now }) key r

unfoldable pub touch_last_seen : String → ℕ → ClientRegistry → ClientRegistry
touch_last_seen key now r = update_client (λ c. record c { last_seen = now }) key r

unfoldable pub mark_seen_dirty : String → ℤ → ClientRegistry → ClientRegistry
mark_seen_dirty key ts r =
    let r1 = update_client (λ c. record c { seen_dirty = true; pending_seen = ts }) key r in
    record r1 { dirty_seen = insert key ts r1.dirty_seen }

unfoldable pub peek_seen_dirty : ClientRegistry → Map String ℤ
peek_seen_dirty r = r.dirty_seen

unfoldable pub clear_seen_dirty : List String → ClientRegistry → ClientRegistry
clear_seen_dirty [] r = r
clear_seen_dirty (key ∷ rest) r = clear_seen_dirty rest (
    update_client (λ c. record c { seen_dirty = false }) key
      (record r { dirty_seen = erase key r.dirty_seen }))

unfoldable pub drain_seen_dirty : ClientRegistry → ClientRegistry × Map String ℤ
drain_seen_dirty r = (clear_seen_dirty (keys r.dirty_seen) r, r.dirty_seen)

-- EvictIdle's loop over the keys that were there when it began.
unfoldable pub evict_keys : ℕ → List String → ClientRegistry → ClientRegistry × List String
evict_keys cutoff [] r = (r, [])
evict_keys cutoff (key ∷ rest) r =
    let idle = maybe false (λ (c : Client). ltb c.last_seen cutoff) (lookup key r.clients) in
    let (r1, evicted) = evict_keys cutoff rest (if idle then remove key r else r) in
    (r1, if idle then key ∷ evicted else evicted)

unfoldable pub evict_idle : ℕ → ClientRegistry → ClientRegistry × List String
evict_idle cutoff r = evict_keys cutoff (keys r.clients) r

unfoldable pub len : ClientRegistry → ℕ
len r = length r.clients
