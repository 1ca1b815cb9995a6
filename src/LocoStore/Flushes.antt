-- ===== src/LocoStore/Flushes.antt =====
-- flushOne, with a command while Redis writes.
use bigfred.Base.{
  ℕ, ◌≡◌, ◌≢◌, ◌⊎◌, refl, Bool, true, String, some, none, lookup, insert, lookup-insert_self,
  lookup-erase_self, nat_key, arith, ap, Map,
}
use bigfred.LocoStore.Store.{
  LocoStateWire, LocoEntry, LocoStateStore, unix_milli, entry, snapshot, command_speed, set_speed,
  finish_flush,
}

snapshot-insert :
    (addr : ℕ) (e : LocoEntry) (s : LocoStateStore) (d : Map ℕ (Unit {0}))
    → snapshot addr (record { entries = insert addr e s.entries; dirty = d }) ≡ e.snap
unfolding snapshot entry
snapshot-insert addr e s d = rw (lookup-insert_self addr e s.entries, snapshot, entry) refl

snapshot-set_speed :
    (addr speed user now : ℕ) (forward : Bool) (source : String) (s : LocoStateStore)
    → (snapshot addr (set_speed addr speed forward user source now s)).at ≡ unix_milli now
unfolding snapshot entry set_speed command_speed
snapshot-set_speed addr speed user now forward source s =
    ap (λ (w : LocoStateWire). w.at)
      (snapshot-insert addr _ s (set_speed addr speed forward user source now s).dirty)

dirty-set_speed :
    (addr speed user now : ℕ) (forward : Bool) (source : String) (s : LocoStateStore)
    → lookup addr (set_speed addr speed forward user source now s).dirty ≡ some tt
unfolding set_speed command_speed
dirty-set_speed addr speed user now forward source s = lookup-insert_self addr tt s.dirty

-- SetSpeed while Redis stores an older snapshot: the address stays marked for the next flush, unless
-- the command falls into the millisecond of that snapshot. Then the mark is cleared, and the new
-- speed is not flushed.
pub finish_flush-set_speed :
    (addr speed user now : ℕ) (forward : Bool) (source : String) (snap : LocoStateWire)
    (s : LocoStateStore)
    → let t = finish_flush addr snap true (set_speed addr speed forward user source now s) in
      ((unix_milli now ≢ snap.at) × (lookup addr t.dirty ≡ some tt))
      ⊎ ((unix_milli now ≡ snap.at) × (lookup addr t.dirty ≡ none))
unfolding finish_flush
finish_flush-set_speed addr speed user now forward source snap s =
    let s1 = set_speed addr speed forward user source now s in
    ground (
      arith,
      snapshot-set_speed addr speed user now forward source s,
      dirty-set_speed addr speed user now forward source s,
      lookup-erase_self addr s1.dirty,
    )
