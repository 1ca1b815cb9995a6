-- ===== src/Slotlease/Ledger.antt =====
-- leaser.go: the small methods on the ledger, which their callers run under `mu`.
use bigfred.Base.{
  ℕ, ◌+◌, ◌-◌, Bool, false, not, ◌&&◌, ◌||◌, String, Option, none, some, List, [], ◌∷◌, ◌++◌, Map,
  lookup, insert, erase, has, total, length, contains, ltb, leb, ◌==◌, nat_key, string_key,
  if◌then◌else◌, maybe,
}
use bigfred.Slotlease.Types.{HolderKey, Lease, Leaser, Effect, lease_single, unset, holder_key}

abbrev pub emit : Effect → Leaser → Leaser
emit x s = record s { effects = x ∷ s.effects }

abbrev pub release_queue_size : ℕ
release_queue_size = 64

-- A key that no holder has: Go's zero `holderKey`.
abbrev pub zero_key : HolderKey
zero_key = record { user_id = 0; session = ""; source = "" }

-- A lease just created, with no holder.
abbrev pub new_lease : ℕ → Lease
new_lease a = record {
  addr = a;
  kind = lease_single;
  train_id = "";
  holders = [];
  holder_order = [];
  last_drive_at = [];
  acquired_at = 0;
  acquiring = false;
  release_after = false;
  pending_release_reason = unset;
  release_at = 0;
}

abbrev pub put_lease : Lease → ℕ → Leaser → Leaser
put_lease le a s = record s { leases = insert a le s.leases }

abbrev pub drop_lease : ℕ → Leaser → Leaser
drop_lease a s = record s { leases = erase a s.leases }

-- leaseOccupiesSlotLocked
unfoldable pub occupies_slot : Lease → Bool
occupies_slot le = not (le.acquired_at == 0) || not (le.release_at == 0)

abbrev pub slot_count : Lease → ℕ
slot_count le = if occupies_slot le then 1 else 0

-- budgetActiveLocked
unfoldable pub budget_active : Leaser → ℕ
budget_active s = total slot_count s.leases

-- leaseHasBigFredHolderLocked
unfoldable pub has_bigfred_holder : Map HolderKey (Unit {0}) → Bool
has_bigfred_holder [] = false
has_bigfred_holder ((k, _) ∷ hs) = not (k.user_id == 0) || has_bigfred_holder hs

unfoldable pub has_ws_holder : Map HolderKey (Unit {0}) → Bool
has_ws_holder [] = false
has_ws_holder ((k, _) ∷ hs) = k.source == "ws" || has_ws_holder hs

-- leaseIsRemoteOnlyLocked
unfoldable pub is_remote_only : Lease → Bool
is_remote_only le = if has_ws_holder le.holders then false else ltb 0 (length le.holders)

-- youngestDriveLocked: the loop over `lastDriveAt` of the holders.
unfoldable pub youngest_drive : Map HolderKey (Unit {0}) → Map HolderKey ℕ → ℕ → ℕ
youngest_drive holders [] youngest = youngest
youngest_drive holders ((k, at) ∷ rest) youngest =
    youngest_drive holders rest
      (if has k holders && (youngest == 0 || ltb youngest at) then at else youngest)

-- holderCountForUserLocked
unfoldable pub holder_count_for_user : ℕ → Map HolderKey (Unit {0}) → ℕ
holder_count_for_user u [] = 0
holder_count_for_user u ((k, _) ∷ hs) =
    (if k.user_id == u then 1 else 0) + holder_count_for_user u hs

unfoldable pub append_user_addr : ℕ → ℕ → Leaser → Leaser
append_user_addr u a s =
    let order = maybe [] (λ l. l) (lookup u s.user_addr_order) in
    if contains a order
    then s
    else record s { user_addr_order = insert u (order ++ a ∷ []) s.user_addr_order }

-- The slice without the first occurrence.
unfoldable pub remove_first : ℕ → List ℕ → List ℕ
remove_first a [] = []
remove_first a (x ∷ xs) = if x == a then xs else x ∷ remove_first a xs

unfoldable pub remove_user_addr : ℕ → ℕ → Leaser → Leaser
remove_user_addr u a s =
    let order = maybe [] (λ l. l) (lookup u s.user_addr_order) in
    if contains a order
    then record s { user_addr_order = insert u (remove_first a order) s.user_addr_order }
    else s

-- `l.perUser[u]--`, and the entry goes when it is no longer positive.
unfoldable pub decrement_user : ℕ → Leaser → Leaser
decrement_user u s =
    let n = maybe 0 (λ k. k) (lookup u s.per_user) - 1 in
    if leb n 0
    then record s { per_user = erase u s.per_user }
    else record s { per_user = insert u n s.per_user }

-- `l.perUser[u]++`
unfoldable pub increment_user : ℕ → Leaser → Leaser
increment_user u s = record s {
  per_user = insert u (maybe 0 (λ k. k) (lookup u s.per_user) + 1) s.per_user;
}

-- The first holder of the user and session, or the zero key.
unfoldable pub find_holder : ℕ → String → Map HolderKey (Unit {0}) → HolderKey
find_holder u session [] = zero_key
find_holder u session ((k, _) ∷ hs) =
    if k.user_id == u && k.session == session then k else find_holder u session hs

-- The holder order without the first occurrence of a key.
unfoldable pub remove_first_key : HolderKey → List HolderKey → List HolderKey
remove_first_key a [] = []
remove_first_key a (x ∷ xs) = if x == a then xs else x ∷ remove_first_key a xs

unfoldable pub without_holder : HolderKey → Lease → Lease
without_holder key le = record le {
  holders = erase key le.holders;
  last_drive_at = erase key le.last_drive_at;
  holder_order = remove_first_key key le.holder_order;
}

-- removeHolderLocked: the changed lease, the ledger, and whether the last holder left.
unfoldable pub remove_holder : Lease → HolderKey → Leaser → Lease × Leaser × Bool
unfolding without_holder decrement_user remove_user_addr
remove_holder le key s =
    if has key le.holders
    then (
      without_holder key le,
      remove_user_addr key.user_id le.addr (decrement_user key.user_id s),
      length (without_holder key le).holders == 0,
    )
    else (le, s, false)

-- The loop of dropLeaseBookkeepingLocked over the holders.
unfoldable pub drop_holders : ℕ → Map HolderKey (Unit {0}) → Leaser → Leaser
drop_holders a [] s = s
drop_holders a ((k, _) ∷ hs) s =
    drop_holders a hs
      (if k.user_id == 0 then s else remove_user_addr k.user_id a (decrement_user k.user_id s))

unfoldable pub drop_lease_bookkeeping : ℕ → Leaser → Leaser
drop_lease_bookkeeping a s = elim (lookup a s.leases) [
  | none ↦ s
  | some le ↦
      let s1 = drop_holders a le.holders s in
      record s1 {
        leases = erase a s1.leases;
        release_pending = erase a s1.release_pending;
        releasing = erase a s1.releasing;
      }
]

-- The loop of oldestEvictableAddrLocked.
unfoldable pub evictable_in : ℕ → ℕ → Map ℕ Lease → List ℕ → Option ℕ
evictable_in u skip leases [] = none
evictable_in u skip leases (a ∷ order) =
    let rest = evictable_in u skip leases order in
    if a == skip then rest else elim (lookup a leases) [
      | none ↦ rest
      | some le ↦ if ltb 0 (holder_count_for_user u le.holders) then some a else rest
    ]

unfoldable pub oldest_evictable_addr : ℕ → ℕ → Leaser → Option ℕ
unfolding evictable_in
oldest_evictable_addr u skip s =
    evictable_in u skip s.leases (maybe [] (λ l. l) (lookup u s.user_addr_order))
