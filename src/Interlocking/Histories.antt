-- ===== src/Interlocking/Histories.antt =====
-- What Join and Leave of server/cmd/interlocking_occupancy.go do, and histories of them.
use bigfred.Base.{
  ℕ, ◌≡◌, ◌≢◌, ◌⊎◌, refl, Bool, true, false, Option, none, some, List, [], ◌∷◌, ◌++◌, maybe,
  contains, ◌==◌, nat_key, arith, Bool-cases, Option-cases, inl, inr, beq_refl,
}
use bigfred.Interlocking.Sessions.{
  InterlockingSession, is_open, is_open_at, find_active_by_interlocking, end_session, end_all_stale,
  count, find-append, find-count-none,
}
use bigfred.Interlocking.Occupancy.{
  Readings, JoinInput, JoinError, JoinResult, Joined, Occupancy, join_denied, join, join_effects,
  can_occupy, leave,
}
use bigfred.Interlocking.Exclusive.{
  IsExclusive, end_where-IsExclusive, freed, freed-at, new_session, change_sessions-some,
  joined-IsExclusive,
}

unfoldable pub occupant_is : ℕ → Option InterlockingSession → Bool
occupant_is user none = false
occupant_is user (some s) = s.signalman_user_id == user

-- Whether the caller has the box already.
abbrev staffs : ℕ → Option InterlockingSession → Bool
staffs user current = maybe false (λ s. s.signalman_user_id == user) current

staffs-occupant :
    (user : ℕ) (current : Option InterlockingSession)
    → staffs user current ≡ true
    → occupant_is user current ≡ true
unfolding occupant_is
staffs-occupant user none h = h
staffs-occupant user (some s) h = h

denied-refused :
    (rd : Readings) (in_ : JoinInput) (current : Option InterlockingSession) (e : JoinError)
    → join_denied rd in_ current ≡ some e
    → e ≢ JoinError.insert_refused
unfolding join_denied can_occupy
denied-refused rd in_ current e h p = ground (arith, h, p)

-- The state that a Join leaves which passes the guards.
abbrev taken : ℕ → Readings → JoinInput → Occupancy → Joined × Occupancy
taken now rd in_ o =
    let current = find_active_by_interlocking in_.interlocking_id o.sessions in
    let displaced = maybe none (λ s. rd.users s.signalman_user_id) current in
    (
      Joined.joined (record { occupant = in_.actor; displaced = displaced }),
      record {
        sessions = freed now in_.actor.user_id current o.sessions ++ new_session now rd in_ ∷ [];
        effects = o.effects ++ join_effects in_ current displaced;
      },
    )

taken-occupant :
    (now : ℕ) (rd : Readings) (in_ : JoinInput) (o : Occupancy)
    → IsExclusive o.sessions
    → occupant_is in_.actor.user_id
        (find_active_by_interlocking in_.interlocking_id (taken now rd in_ o).1.sessions)
      ≡ true
unfolding occupant_is find_active_by_interlocking is_open
taken-occupant now rd in_ o h =
    let current = find_active_by_interlocking in_.interlocking_id o.sessions in
    let rows = freed now in_.actor.user_id current o.sessions in
    let s = new_session now rd in_ in
    let free = freed-at now in_.actor.user_id in_.interlocking_id current o.sessions h refl in
    let found =
      find-append (is_open_at in_.interlocking_id) rows s
        (find-count-none (is_open_at in_.interlocking_id) rows free)
        (beq_refl in_.interlocking_id) in
    rw found (beq_refl in_.actor.user_id)

-- The ways a Join can go.
pub join-cases :
    (now : ℕ) (rd : Readings) (in_ : JoinInput) (o : Occupancy)
    → IsExclusive o.sessions
    → ((e : JoinError) × (join now rd in_ o ≡ (Joined.refused e, o))
        × (e ≢ JoinError.insert_refused))
      ⊎ (((join now rd in_ o
              ≡ (Joined.joined (record { occupant = in_.actor; displaced = none }), o))
            × (staffs in_.actor.user_id (find_active_by_interlocking in_.interlocking_id o.sessions)
                ≡ true))
          ⊎ (join now rd in_ o ≡ taken now rd in_ o))
unfolding join
join-cases now rd in_ o h =
    let current = find_active_by_interlocking in_.interlocking_id o.sessions in
    elim (Bool-cases (contains in_.interlocking_id rd.interlocking_ids)) [
      | inr p ↦ inl (JoinError.interlocking_not_found, rw (p, join) refl, λ q. cc)
      | inl p ↦ elim (Bool-cases (staffs in_.actor.user_id current)) [
        | inl c ↦ inr (inl (rw (p, c, join) refl, c))
        | inr c ↦ elim (Option-cases (join_denied rd in_ current)) [
          | inr (e, d) ↦ inl (e, rw (p, c, d, join) refl, denied-refused rd in_ current e d)
          | inl d ↦ inr (
              inr (
                rw (p, c, d, change_sessions-some now rd in_ o.sessions h current refl, join) refl))
        ]
      ]
    ]

-- Join takes the box or changes nothing: where no box is staffed twice and nobody staffs two, it is
-- refused and nothing changes, and never by the table's index; or the caller is the occupant
-- afterwards, no box is staffed twice and nobody staffs two.
pub join-occupies :
    (now : ℕ) (rd : Readings) (in_ : JoinInput) (o : Occupancy)
    → IsExclusive o.sessions
    → ((e : JoinError) × (join now rd in_ o ≡ (Joined.refused e, o))
        × (e ≢ JoinError.insert_refused))
      ⊎ ((r : JoinResult) × ((join now rd in_ o).0 ≡ Joined.joined r)
          × (occupant_is in_.actor.user_id
                (find_active_by_interlocking in_.interlocking_id (join now rd in_ o).1.sessions)
              ≡ true)
          × IsExclusive (join now rd in_ o).1.sessions)
unfolding occupant_is
join-occupies now rd in_ o h = elim (join-cases now rd in_ o h) [
  | inl f ↦ inl f
  | inr (inl (q, c)) ↦ inr (
    record { occupant = in_.actor; displaced = none },
    rw q refl,
    rw q (staffs-occupant in_.actor.user_id _ c),
    rw q h,
  )
  | inr (inr q) ↦ inr (
    (record {
      occupant = in_.actor;
      displaced =
          maybe none (λ s. rd.users s.signalman_user_id)
            (find_active_by_interlocking in_.interlocking_id o.sessions);
    }),
    rw q refl,
    rw q (taken-occupant now rd in_ o h),
    rw q (joined-IsExclusive now rd in_ o.sessions h _ refl),
  )
]

leave-IsExclusive :
    (now interlocking layout user : ℕ) (o : Occupancy)
    → IsExclusive o.sessions
    → IsExclusive (leave now interlocking layout user o).sessions
unfolding leave end_session
leave-IsExclusive now interlocking layout user o h =
    elim (Option-cases (find_active_by_interlocking interlocking o.sessions)) [
      | inl e ↦ rw (e, leave) h
      | inr (s, e) ↦ elim (Bool-cases (s.signalman_user_id == user)) [
        | inl p ↦ rw (e, leave, p) (end_where-IsExclusive (λ y. y.id == s.id) now o.sessions h)
        | inr p ↦ rw (e, leave, p) h
      ]
    ]

pub data OccupancyCall : Type 0 where
  join_call : ℕ → Readings → JoinInput → OccupancyCall
  leave_call : ℕ → ℕ → ℕ → ℕ → OccupancyCall
  stale_call : ℕ → OccupancyCall

unfoldable pub call : OccupancyCall → Occupancy → Occupancy
call (OccupancyCall.join_call now rd in_) o = (join now rd in_ o).1
call (OccupancyCall.leave_call now interlocking layout user) o =
    leave now interlocking layout user o
call (OccupancyCall.stale_call now) o = record {
  sessions = end_all_stale now o.sessions;
  effects = o.effects;
}

unfoldable pub calls : List OccupancyCall → Occupancy → Occupancy
calls [] o = o
calls (c ∷ cs) o = calls cs (call c o)

join-IsExclusive :
    (now : ℕ) (rd : Readings) (in_ : JoinInput) (o : Occupancy)
    → IsExclusive o.sessions
    → IsExclusive (join now rd in_ o).1.sessions
join-IsExclusive now rd in_ o h = elim (join-cases now rd in_ o h) [
  | inl (e, q, n) ↦ rw q h
  | inr (inl (q, c)) ↦ rw q h
  | inr (inr q) ↦ rw q (joined-IsExclusive now rd in_ o.sessions h _ refl)
]

call-IsExclusive :
    (c : OccupancyCall) (o : Occupancy) → IsExclusive o.sessions → IsExclusive (call c o).sessions
unfolding call end_all_stale
call-IsExclusive (OccupancyCall.join_call now rd in_) o h = join-IsExclusive now rd in_ o h
call-IsExclusive (OccupancyCall.leave_call now interlocking layout user) o h =
    leave-IsExclusive now interlocking layout user o h
call-IsExclusive (OccupancyCall.stale_call now) o h = end_where-IsExclusive is_open now o.sessions h

run-IsExclusive :
    (cs : List OccupancyCall) (o : Occupancy)
    → IsExclusive o.sessions
    → IsExclusive (calls cs o).sessions
unfolding calls
run-IsExclusive [] o h = h
run-IsExclusive (c ∷ cs) o h = run-IsExclusive cs (call c o) (call-IsExclusive c o h)

-- From an empty table, any history of Join, Leave and server starts has at most one open session for
-- each interlocking, and at most one for each user.
pub calls-IsExclusive :
    (cs : List OccupancyCall)
    → IsExclusive (calls cs (record { sessions = []; effects = [] })).sessions
unfolding count
calls-IsExclusive cs = run-IsExclusive cs _ (λ i. omega arith, λ u. omega arith)
