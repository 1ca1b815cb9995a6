-- ===== src/Lease/Histories/Recovery.antt =====
-- `RecoverPending` of server/cmd/lease.go: what a restart makes of the leases that Redis still holds.
use bigfred.Base.{
  ℕ, ◌≡◌, ◌<◌, refl, sym, ◌∙◌, true, false, some, List, [], ◌∷◌, All, lookup, ◌⊎◌, ◌≢◌, inl, inr,
  ◌==◌, arith, Bool-cases, beq_eq,
}
use bigfred.Lease.Redis.{LeaseKey, Redis, LeaseWire, Json, lease_key_key}
use bigfred.Lease.Store.{LeaseRow, Answer, lease_from_wire, is_active, get_lease}
use bigfred.Lease.Service.{
  LeaseTimer, LeaseService, Repositories, build_lease_entry, schedule_expiry, with_timers,
}
use bigfred.Lease.Commands.{recover_pending}
use bigfred.Lease.Commands.Outcomes.{get_lease-present}
use bigfred.Lease.Histories.{IsSoundWorld}
use bigfred.Lease.Histories.Frames.{
  schedule_expiry-db, schedule_expiry-other, schedule_expiry-armed,
}
use bigfred.Lease.Store.{find_row}

answer_inj {ℓ} : {A : Type ℓ} (a b : A) → Answer.answer (some a) ≡ Answer.answer (some b) → a ≡ b
answer_inj a b h = cc

module _ (r : Redis) (j : Json r.Payload) (repos : Repositories) (now : ℕ) where
  open r use {Db, get}

  -- The row is the one that Redis holds under its key.
  abbrev pub IsHeld : Db → LeaseRow → Type 0
  IsHeld db row = get_lease r j row.key db ≡ Answer.answer (some row)

  abbrev armed_timer : LeaseRow → LeaseTimer
  armed_timer row = record {
    entry = build_lease_entry repos row;
    captured = build_lease_entry repos row;
    due = row.expires_at;
    running = true;
  }

  recover_pending-db :
      (rows : List LeaseRow) (s : LeaseService Db)
      → (recover_pending r j repos now rows s).db ≡ s.db
  unfolding recover_pending
  recover_pending-db [] s = refl
  recover_pending-db (row ∷ rows) s = elim (Bool-cases (is_active now row)) [
    | inr c ↦ rw (recover_pending, c) (recover_pending-db rows s)
    | inl c ↦
        rw (recover_pending, c)
          (recover_pending-db rows _
            ∙ schedule_expiry-db now row.key row.expires_at (build_lease_entry repos row) s)
  ]

  held_row :
      (db : Db) (row : LeaseRow) (key : LeaseKey) (w : LeaseWire)
      → IsHeld db row
      → get key db ≡ some (j.marshal_lease w)
      → (row.key == key) ≡ true
      → row ≡ lease_from_wire key w
  held_row db row key w h e p =
      let same = beq_eq row.key key p in
      let there : get_lease r j row.key db ≡ Answer.answer (some (lease_from_wire key w)) =
        rw same (get_lease-present r j key w db e) in
      answer_inj row (lease_from_wire key w) (sym h ∙ there)

  not_over :
      (w : LeaseWire) (key : LeaseKey)
      → now < w.expires_at
      → is_active now (lease_from_wire key w) ≢ false
  unfolding is_active
  not_over w key future over = ground (arith, future)

  -- A lease is seen to: its row is still to come, or its timer runs.
  abbrev Awaited : List LeaseRow → LeaseService Db → LeaseKey → LeaseWire → Type 0
  Awaited rows s key w =
      (find_row key rows ≡ some (lease_from_wire key w))
      ⊎ (lookup key s.timers ≡ some (armed_timer (lease_from_wire key w)))

  Awaited-skip :
      (s : LeaseService Db) (row : LeaseRow) (rows : List LeaseRow) (key : LeaseKey) (w : LeaseWire)
      → Awaited (row ∷ rows) s key w
      → (row.key == key) ≡ false
      → Awaited rows s key w
  unfolding find_row
  Awaited-skip s row rows key w (inl f) p = inl (rw p at f)
  Awaited-skip s row rows key w (inr t) p = inr t

  Awaited-other :
      (s : LeaseService Db) (row : LeaseRow) (rows : List LeaseRow) (key : LeaseKey) (w : LeaseWire)
      → Awaited rows s key w
      → (row.key == key) ≡ false
      → Awaited rows
          (schedule_expiry now row.key row.expires_at (build_lease_entry repos row) s)
          key
          w
  Awaited-other s row rows key w (inl f) p = inl f
  Awaited-other s row rows key w (inr t) p =
      inr
        (schedule_expiry-other now row.key row.expires_at (build_lease_entry repos row) s key p ∙ t)

  Awaited-self :
      (s : LeaseService Db) (row : LeaseRow) (rows : List LeaseRow) (key : LeaseKey) (w : LeaseWire)
      → row ≡ lease_from_wire key w
      → now < w.expires_at
      → Awaited rows
          (schedule_expiry now row.key row.expires_at (build_lease_entry repos row) s)
          key
          w
  Awaited-self s row rows key w same future =
      let there = lease_from_wire key w in
      rw same
        (inr (schedule_expiry-armed now key w.expires_at (build_lease_entry repos there) s future))

  recover_pending-armed :
      (rows : List LeaseRow) (db : Db) (s : LeaseService Db) (key : LeaseKey) (w : LeaseWire)
      → All (IsHeld db) rows
      → get key db ≡ some (j.marshal_lease w)
      → now < w.expires_at
      → Awaited rows s key w
      → lookup key (recover_pending r j repos now rows s).timers
        ≡ some (armed_timer (lease_from_wire key w))
  unfolding recover_pending find_row
  recover_pending-armed [] db s key w held e future (inl f) = cc
  recover_pending-armed [] db s key w held e future (inr t) = t
  recover_pending-armed (row ∷ rows) db s key w held e future found =
      elim (Bool-cases (row.key == key)) [
        | inl p ↦
            let same = held_row db row key w held.0 e p in
            elim (Bool-cases (is_active now row)) [
              | inl c ↦
                  rw (c, recover_pending)
                    (recover_pending-armed rows db _ key w held.1 e future
                      (Awaited-self s row rows key w same future))
              | inr c ↦ absurd (not_over w key future (rw same at c))
            ]
        | inr p ↦
            let later = Awaited-skip s row rows key w found p in
            elim (Bool-cases (is_active now row)) [
              | inl c ↦
                  rw (c, recover_pending)
                    (recover_pending-armed rows db _ key w held.1 e future
                      (Awaited-other s row rows key w later p))
              | inr c ↦
                  rw (c, recover_pending)
                    (recover_pending-armed rows db s key w held.1 e future later)
            ]
      ]

  -- A restart loses the timers. When RecoverPending is given rows that Redis holds, the row of each lease
  -- in Redis among them, then the leases are sound again if they were before: in particular each has
  -- a running timer that is due when it ends.
  pub recover_pending-IsSoundWorld :
      (rows : List LeaseRow) (s : LeaseService Db)
      → IsSoundWorld r j (now, s)
      → All (IsHeld s.db) rows
      → ((key : LeaseKey) (w : LeaseWire)
          → get key s.db ≡ some (j.marshal_lease w)
          → find_row key rows ≡ some (lease_from_wire key w))
      → IsSoundWorld r j (now, recover_pending r j repos now rows (with_timers [] s))
  unfolding build_lease_entry
  recover_pending-IsSoundWorld rows s h held complete key raw e =
      let same_db = recover_pending-db rows (with_timers [] s) in
      let (w, m, l) = h key raw (rw same_db at e) in
      let here = rw (same_db, m) at e in
      (
        w,
        m,
        record {
          timer = armed_timer (lease_from_wire key w);
          kind = l.kind;
          in_force = l.in_force;
          ttl = rw same_db l.ttl;
          limit_le = l.limit_le;
          parties = l.parties;
          expiry_le = l.expiry_le;
          owner_indexed = rw same_db l.owner_indexed;
          lessee_indexed = rw same_db l.lessee_indexed;
          armed =
              recover_pending-armed rows s.db (with_timers [] s) key w held here l.in_force
                (inl (complete key w here));
          running = refl;
          due = refl;
          captured_from = refl;
          captured_to = refl;
        },
      )
