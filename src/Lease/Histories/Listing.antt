-- ===== src/Lease/Histories/Listing.antt =====
-- What `ListByOwner` and `ListByLessee` of server/repo/leases_redis.go find.
use bigfred.Base.{
  ◌≡◌, refl, true, some, List, [], ◌∷◌, contains, inl, inr, ◌==◌, Bool-cases, Option-cases, beq_eq,
}
use bigfred.Lease.Redis.{LeaseKey, IndexKey, Redis, LeaseWire, Json, lease_key_key}
use bigfred.Lease.Store.{
  lease_from_wire, lessee_key, owner_key, list_members, list_from_index, from_wire, find_row,
}
use bigfred.Lease.Histories.{Event, World, events, IsSoundWorld}
use bigfred.Lease.Histories.Granting.{sound-IsLeased}
use bigfred.Lease.Histories.Soundness.{events-IsSoundWorld}

module _ (r : Redis) (j : Json r.Payload) where
  open r use {Db, get, smembers}

  list_members-finds :
      (l : IndexKey) (ks : List LeaseKey) (db : Db) (key : LeaseKey) (w : LeaseWire)
      → contains key ks ≡ true
      → get key db ≡ some (j.marshal_lease w)
      → find_row key (list_members r j l ks db).0 ≡ some (lease_from_wire key w)
  unfolding list_members from_wire find_row contains
  list_members-finds l [] db key w c e = cc
  list_members-finds l (k ∷ ks) db key w c e = elim (Bool-cases (k == key)) [
    | inl p ↦
        let same = beq_eq k key p in
        let here : get k db ≡ some (j.marshal_lease w) = rw same e in
        rw (here, list_members, from_wire, j.unmarshal-marshal w, find_row, p, same) refl
    | inr p ↦
        let rest = list_members-finds l ks db key w (rw p at c) e in
        elim (Option-cases (get k db)) [
          | inl a ↦ rw (a, list_members) rest
          | inr (raw, a) ↦ elim (Option-cases (j.unmarshal_lease raw)) [
            | inl u ↦ rw (a, list_members, from_wire, u) rest
            | inr (w', u) ↦ rw (a, list_members, from_wire, u, find_row, p) rest
          ]
        ]
  ]

  -- After any history of calls, timers and time from a world whose leases are sound, each lease that
  -- Redis holds is listed by its owner and by its lessee, with the row that Redis holds.
  pub events-list :
      (es : List Event) (w₀ : World r j) (key : LeaseKey) (w : LeaseWire)
      → IsSoundWorld r j w₀
      → get key (events r j es w₀).1.db ≡ some (j.marshal_lease w)
      → (find_row key
            (list_from_index r j (owner_key key.kind w.from_user_id) (events r j es w₀).1.db).0
          ≡ some (lease_from_wire key w))
        × (find_row key
              (list_from_index r j (lessee_key key.kind w.to_user_id) (events r j es w₀).1.db).0
            ≡ some (lease_from_wire key w))
  unfolding list_from_index
  events-list es w₀ key w h e =
      let (now, s) = events r j es w₀ in
      let l = sound-IsLeased r j now s key w (events-IsSoundWorld r j es w₀ h key) e in
      (
        list_members-finds _ (smembers (owner_key key.kind w.from_user_id) s.db) s.db key w
            l.owner_indexed e,
        list_members-finds _ (smembers (lessee_key key.kind w.to_user_id) s.db) s.db key w
            l.lessee_indexed e,
      )
