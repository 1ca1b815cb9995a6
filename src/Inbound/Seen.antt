-- ===== src/Inbound/Seen.antt =====
-- The times last seen that are staged for a batched write.
use bigfred.Base.{
  ◌≡◌, refl, true, false, String, none, some, List, [], ◌∷◌, Map, arith, if◌then◌else◌, has, lookup,
  erase, contains, ◌==◌, nat_key, string_key, lookup-insert, lookup-erase, ℤ,
}
use bigfred.Inbound.Types.{Client, ClientRegistry}
use bigfred.Inbound.Registry.{
  keys, update_client, mark_seen_dirty, peek_seen_dirty, clear_seen_dirty, drain_seen_dirty,
}

update_client-dirty :
    (f : Client → Client) (key : String) (r : ClientRegistry)
    → (update_client f key r).dirty_seen ≡ r.dirty_seen
unfolding update_client
update_client-dirty f key r = ground arith

contains-keys : (k : String) (m : Map String ℤ) → contains k (keys m) ≡ has k m
unfolding contains lookup
contains-keys k [] = refl
contains-keys k ((j, c) ∷ m) = ground (arith, contains-keys k m)

lookup-mark_seen_dirty :
    (k key : String) (ts : ℤ) (r : ClientRegistry)
    → lookup k (mark_seen_dirty key ts r).dirty_seen
      ≡ (if key == k then some ts else lookup k r.dirty_seen)
unfolding mark_seen_dirty
lookup-mark_seen_dirty k key ts r =
    let f = λ (c : Client). record c { seen_dirty = true; pending_seen = ts } in
    rw (update_client-dirty f key r) (lookup-insert k key ts r.dirty_seen)

lookup-clear_seen_dirty :
    (k : String) (ks : List String) (r : ClientRegistry)
    → lookup k (clear_seen_dirty ks r).dirty_seen
      ≡ (if contains k ks then none else lookup k r.dirty_seen)
unfolding clear_seen_dirty contains
lookup-clear_seen_dirty k [] r = refl
lookup-clear_seen_dirty k (key ∷ rest) r =
    let f = λ (c : Client). record c { seen_dirty = false } in
    let r1 = record r { dirty_seen = erase key r.dirty_seen } in
    ground (
      arith,
      update_client-dirty f key r1,
      lookup-erase k key r.dirty_seen,
      lookup-clear_seen_dirty k rest (update_client f key r1),
    )

-- After a time is staged for a key, DrainSeenDirty answers it for that key and what was staged
-- before for every other, and leaves nothing staged.
pub drain_seen_dirty-takes_latest :
    (k key : String) (ts : ℤ) (r : ClientRegistry)
    → let t = drain_seen_dirty (mark_seen_dirty key ts r) in
      (lookup k t.1 ≡ (if key == k then some ts else lookup k r.dirty_seen))
      × (lookup k t.0.dirty_seen ≡ none)
unfolding drain_seen_dirty
drain_seen_dirty-takes_latest k key ts r =
    let r1 = mark_seen_dirty key ts r in
    ground (
      arith,
      lookup-mark_seen_dirty k key ts r,
      lookup-clear_seen_dirty k (keys r1.dirty_seen) r1,
      contains-keys k r1.dirty_seen,
    )

-- Where a key is staged, a newer time that is staged between PeekSeenDirty and ClearSeenDirty of
-- the keys it answered is dropped: the answer has the older time, and afterwards nothing is
-- staged.
pub clear_seen_dirty-drops_newer :
    (key : String) (old new : ℤ) (r : ClientRegistry)
    → lookup key r.dirty_seen ≡ some old
    → let peeked = peek_seen_dirty r in
      (lookup key peeked ≡ some old)
      × (lookup key (clear_seen_dirty (keys peeked) (mark_seen_dirty key new r)).dirty_seen ≡ none)
unfolding peek_seen_dirty
clear_seen_dirty-drops_newer key old new r e = ground (
  arith,
  e,
  lookup-clear_seen_dirty key (keys r.dirty_seen) (mark_seen_dirty key new r),
  contains-keys key r.dirty_seen,
)
