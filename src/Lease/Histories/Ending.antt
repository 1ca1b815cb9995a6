-- ===== src/Lease/Histories/Ending.antt =====
-- That `Revoke`, an expiry timer, a listing and time keep the leases of server/cmd/lease.go sound.
use bigfred.Base.{
  ℕ, ◌+◌, ◌≡◌, ◌≢◌, refl, sym, ap, ◌∙◌, true, false, Option, none, some, List, [], ◌∷◌, lookup, leb,
  ltb, ◌==◌, inl, inr, arith, Bool-cases, Option-cases, beq_refl, nat_key, insert, ◌⊎◌,
}
use bigfred.Lease.Redis.{LeaseKey, IndexKey, Redis, LeaseWire, Json, lease_key_key, index_key_key}
use bigfred.Lease.Store.{
  Answer, StoreError, owner_key, lessee_key, is_active, get_lease, list_members, list_from_index,
  unindex, from_wire,
}
use bigfred.Lease.Service.{
  LeaseEntry, LeaseTimer, LeaseService, Repositories, cancel_timer, has_kind, build_lease_entry,
  with_db, with_timers, stopped, expire_on_layouts, expire_lease, fire_timer,
}
use bigfred.Lease.Commands.{Actor, revoke, list_received, layout_roster_index}
use bigfred.Lease.Commands.Outcomes.{Result-cases}
use bigfred.Lease.Commands.Loaded.{revoke-cases, revoked}
use bigfred.Lease.Histories.{IsSoundWorld}
use bigfred.Lease.Histories.Frames.{
  cancel_timer-other, insert-other, schedule_expiry-db, schedule_expiry-other, revoked-SameDb,
  list_members-SameDb, sound-frame, sound-one,
}
use bigfred.Lease.Histories.Granting.{some_inj, sound-IsWritten}

module _ {D : Type 0} where
  pub expire_on_layouts-keeps :
      (layouts : List ℕ) (entry : LeaseEntry) (key : LeaseKey) (s : LeaseService D)
      → ((expire_on_layouts layouts entry key s).db ≡ s.db)
        × ((expire_on_layouts layouts entry key s).timers ≡ s.timers)
  unfolding expire_on_layouts
  expire_on_layouts-keeps [] entry key s = (refl, refl)
  expire_on_layouts-keeps (l ∷ ls) entry key s =
      let rest = expire_on_layouts-keeps ls entry key _ in (rest.0 ∙ refl, rest.1 ∙ refl)

Answer-cases {ℓ} :
    {A : Type ℓ} (m : Answer (Option A))
    → ((e : StoreError) × (m ≡ Answer.failed e))
      ⊎ ((m ≡ Answer.answer none) ⊎ ((a : A) × (m ≡ Answer.answer (some a))))
Answer-cases (Answer.failed e) = inl (e, refl)
Answer-cases (Answer.answer none) = inr (inl refl)
Answer-cases (Answer.answer (some a)) = inr (inr (a, refl))

module _ (r : Redis) (j : Json r.Payload) where
  open r use {Db, get, pttl, pass, smembers}

  pub revoked-get :
      (key : LeaseKey) (w : LeaseWire) (db : Db) → get key (unindex r j key w (r.del key db)) ≡ none
  revoked-get key w db =
      rw (r.get-srem key _ key _, r.get-srem key _ key _, r.get-del key key db, beq_refl key) refl

  pub revoke-IsSoundWorld :
      (repos : Repositories) (now layout : ℕ) (actor : Actor) (key : LeaseKey) (s : LeaseService Db)
      → IsSoundWorld r j (now, s)
      → IsSoundWorld r j (now, (revoke r j repos now layout actor key s).1)
  unfolding cancel_timer
  revoke-IsSoundWorld repos now layout actor key s h =
      elim (revoke-cases r j repos now layout actor key s (sound-IsWritten r j now s key (h key))) [
        | inl (e, q) ↦ rw q h
        | inr (w, m, c, q) ↦ rw q (
            sound-one r j now key s (revoked r j repos now layout actor key w s).1 h
              (λ i p. (revoked-SameDb r j i key w s.db p, cancel_timer-other key s i p))
              (λ raw e. let gone = sym (revoked-get key w s.db) ∙ e in cc))
      ]

  list_members-get :
      (i : LeaseKey) (l : IndexKey) (ks : List LeaseKey) (db : Db)
      → get i (list_members r j l ks db).1 ≡ get i db
  unfolding list_members from_wire
  list_members-get i l [] db = refl
  list_members-get i l (k ∷ ks) db = elim (Option-cases (get k db)) [
    | inl a ↦ rw (a, list_members) (r.get-srem i l k _ ∙ list_members-get i l ks db)
    | inr (raw, a) ↦ elim (Option-cases (j.unmarshal_lease raw)) [
      | inl u ↦ rw (a, list_members, from_wire, u) (list_members-get i l ks db)
      | inr (w, u) ↦ rw (a, list_members, from_wire, u) (list_members-get i l ks db)
    ]
  ]

  list_from_index_sound :
      (now : ℕ) (l : IndexKey) (s : LeaseService Db)
      → IsSoundWorld r j (now, s)
      → IsSoundWorld r j (now, with_db (list_from_index r j l s.db).1 s)
  unfolding list_from_index
  list_from_index_sound now l s h i raw e =
      let here : get i s.db ≡ some raw = sym (list_members-get i l (smembers l s.db) s.db) ∙ e in
      sound-frame r j now s (with_db (list_from_index r j l s.db).1 s) i (h i)
        (list_members-SameDb r j i raw l (smembers l s.db) s.db here) refl raw e

  pub list_received-IsSoundWorld :
      (repos : Repositories) (now layout user : ℕ) (s : LeaseService Db)
      → IsSoundWorld r j (now, s)
      → IsSoundWorld r j (now, (list_received r j repos now layout user s).1)
  unfolding list_received
  list_received-IsSoundWorld repos now layout user s h =
      elim (Result-cases (layout_roster_index repos layout)) [
        | inl (e, q) ↦ rw (q, list_received) h
        | inr (idx, q) ↦
            let first = list_from_index_sound now (lessee_key "vehicle" user) s h in
            rw (q, list_received)
              (list_from_index_sound now (lessee_key "train" user)
                (with_db (list_from_index r j (lessee_key "vehicle" user) s.db).1 s) first)
      ]

  -- An expiry writes nothing to Redis and sees to no other timer.
  abbrev Frame : LeaseKey → LeaseService Db → LeaseService Db → Type 0
  Frame key s s' =
      (s'.db ≡ s.db)
      × ((i : LeaseKey) → (key == i) ≡ false → lookup i s'.timers ≡ lookup i s.timers)

  over-Frame :
      (layouts : List ℕ) (entry : LeaseEntry) (key : LeaseKey) (s : LeaseService Db)
      → Frame key s (expire_on_layouts layouts entry key (cancel_timer key s))
  unfolding cancel_timer
  over-Frame layouts entry key s =
      let keeps = expire_on_layouts-keeps layouts entry key (cancel_timer key s) in
      (keeps.0 ∙ refl, λ i p. ap (lookup i) keeps.1 ∙ cancel_timer-other key s i p)

  expire_lease-Frame :
      (repos : Repositories) (now : ℕ) (key : LeaseKey) (entry : LeaseEntry) (s : LeaseService Db)
      → Frame key s (expire_lease r j repos now key entry s)
  unfolding expire_lease cancel_timer
  expire_lease-Frame repos now key entry s =
      let over = over-Frame (repos.layout_ids key) entry key s in
      elim (Bool-cases (has_kind key)) [
        | inr p ↦ rw (p, expire_lease) (refl, λ i n. cancel_timer-other key s i n)
        | inl p ↦ elim (Answer-cases (get_lease r j key s.db)) [
          | inl (e, q) ↦ rw (p, q, expire_lease) (refl, λ i n. refl)
          | inr (inl q) ↦ rw (p, q, expire_lease) over
          | inr (inr (row, q)) ↦ elim (Bool-cases (is_active now row)) [
            | inr c ↦ rw (p, q, expire_lease, c) over
            | inl c ↦
                rw (p, q, expire_lease, c)
                  (
                    schedule_expiry-db now key row.expires_at (build_lease_entry repos row) s,
                    schedule_expiry-other now key row.expires_at (build_lease_entry repos row) s,
                  )
          ]
        ]
      ]

  -- The timer of a lease that Redis holds is not due.
  pub not_due :
      (now : ℕ) (key : LeaseKey) (s : LeaseService Db) (t : LeaseTimer)
      → IsSoundWorld r j (now, s)
      → lookup key s.timers ≡ some t
      → leb t.due now ≡ true
      → (raw : r.Payload) → get key s.db ≢ some raw
  not_due now key s t h a c raw e =
      let (w, m, l) = h key raw e in
      let same : some t ≡ some l.timer = sym a ∙ l.armed in
      let due : t.due ≡ w.expires_at = ap (λ x. x.due) (some_inj t l.timer same) ∙ l.due in
      ground (arith, due, l.in_force, c)

  pub fire_timer-IsSoundWorld :
      (repos : Repositories) (now : ℕ) (key : LeaseKey) (s : LeaseService Db)
      → IsSoundWorld r j (now, s)
      → IsSoundWorld r j (now, fire_timer r j repos now key s)
  unfolding fire_timer
  fire_timer-IsSoundWorld repos now key s h = elim (Option-cases (lookup key s.timers)) [
    | inl a ↦ rw (a, fire_timer) h
    | inr (t, a) ↦ elim (Bool-cases t.running) [
      | inr p ↦ rw (a, fire_timer, p) h
      | inl p ↦ elim (Bool-cases (leb t.due now)) [
        | inr c ↦ rw (a, fire_timer, p, c) h
        | inl c ↦
            let fired = with_timers (insert key (stopped t) s.timers) s in
            let frame = expire_lease-Frame repos now key t.captured fired in
            rw (a, fire_timer, p, c)
              (sound-one r j now key s (expire_lease r j repos now key t.captured fired) h
                (λ i n. (
                  rw frame.0 (refl, refl, λ l. refl),
                  frame.1 i n ∙ insert-other key i (stopped t) s.timers n,
                ))
                (λ raw e. absurd (not_due now key s t h a c raw (rw frame.0 at e))))
      ]
    ]
  ]

  pub pass-IsSoundWorld :
      (now d : ℕ) (s : LeaseService Db)
      → IsSoundWorld r j (now, s)
      → IsSoundWorld r j (now + d, with_db (pass d s.db) s)
  pass-IsSoundWorld now d s h i raw e = elim (Bool-cases (ltb d (pttl i s.db))) [
    | inr p ↦ let gone = r.get-pass i d s.db in let none_ = rw p at gone in cc
    | inl p ↦
        let same = r.get-pass i d s.db in
        let here = rw p at same in
        let (w, m, l) = h i raw (sym here ∙ e) in
        (
          w,
          m,
          record {
            timer = l.timer;
            kind = l.kind;
            in_force = ground (arith, p, l.ttl);
            ttl = rw (r.pttl-pass i d s.db) (ground (arith, p, l.ttl));
            limit_le = l.limit_le;
            parties = l.parties;
            expiry_le = ground (arith, l.expiry_le);
            owner_indexed =
                rw (r.smembers-pass (owner_key i.kind w.from_user_id) d s.db) l.owner_indexed;
            lessee_indexed =
                rw (r.smembers-pass (lessee_key i.kind w.to_user_id) d s.db) l.lessee_indexed;
            armed = l.armed;
            running = l.running;
            due = l.due;
            captured_from = l.captured_from;
            captured_to = l.captured_to;
          },
        )
  ]
