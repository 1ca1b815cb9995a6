-- ===== src/Interlocking/Exclusive.antt =====
-- At most one signalman per interlocking, and one interlocking per signalman, over histories of the
-- calls of server/cmd/interlocking_occupancy.go.
use bigfred.Base.{
  ℕ, suc, ◌≤◌, ◌≡◌, refl, ap, Bool, true, false, Option, none, some, List, [], ◌∷◌, ◌++◌, map,
  maybe, ◌==◌, nat_key, arith, if◌then◌else◌, Bool-cases, inl, inr,
}
use bigfred.Interlocking.Sessions.{
  InterlockingSession, is_open, is_open_at, is_open_by, find_row, find_active_by_interlocking,
  ended, end_session, end_all_for_user, insert_session, count, count-map-le, count-map_none,
  count-append, count-find_none, find-count-none,
}
use bigfred.Interlocking.Occupancy.{Readings, JoinInput, change_sessions}

abbrev pub IsExclusive : List InterlockingSession → Type 0
IsExclusive rows =
    ((interlocking : ℕ) → count (is_open_at interlocking) rows ≤ 1)
    × ((user : ℕ) → count (is_open_by user) rows ≤ 1)

-- Ending some sessions.
abbrev pub end_where : (InterlockingSession → Bool) → ℕ → InterlockingSession → InterlockingSession
end_where q now s = if q s then ended now s else s

end_where-at :
    (q : InterlockingSession → Bool) (now interlocking : ℕ) (s : InterlockingSession)
    → is_open_at interlocking (end_where q now s) ≡ true
    → is_open_at interlocking s ≡ true
unfolding is_open
end_where-at q now interlocking s h = ground arith

end_where-by :
    (q : InterlockingSession → Bool) (now user : ℕ) (s : InterlockingSession)
    → is_open_by user (end_where q now s) ≡ true
    → is_open_by user s ≡ true
unfolding is_open
end_where-by q now user s h = ground arith

pub end_where-IsExclusive :
    (q : InterlockingSession → Bool) (now : ℕ) (rows : List InterlockingSession)
    → IsExclusive rows
    → IsExclusive (map (end_where q now) rows)
end_where-IsExclusive q now rows h = (
  λ i.
      ground
        (arith, count-map-le (is_open_at i) (end_where q now) rows (end_where-at q now i), h.0 i),
  λ u.
      ground
        (arith, count-map-le (is_open_by u) (end_where q now) rows (end_where-by q now u), h.1 u),
)

some_inj {ℓ} : {A : Type ℓ} (a b : A) → some a ≡ some b → a ≡ b
some_inj a b h = cc

-- After the session that is found has ended, one session less is open at the interlocking.
pub end_session-count :
    (interlocking now : ℕ) (rows : List InterlockingSession) (s : InterlockingSession)
    → find_row (is_open_at interlocking) rows ≡ some s
    → suc (count (is_open_at interlocking) (end_session s.id now rows))
      ≤ count (is_open_at interlocking) rows
unfolding end_session find_row count is_open
end_session-count interlocking now [] s h = cc
end_session-count interlocking now (x ∷ rows) s h =
    let q = λ (y : InterlockingSession). y.id == s.id in
    let le =
      count-map-le (is_open_at interlocking) (end_where q now) rows
        (end_where-at q now interlocking) in
    elim (Bool-cases (is_open_at interlocking x)) [
      | inl p ↦
          let found = rw p at h in
          let same : x.id ≡ s.id = ap (λ y. y.id) (some_inj x s found) in
          ground (arith, p, same, le)
      | inr p ↦ ground (
        arith,
        p,
        end_session-count interlocking now rows s (rw p at h),
        end_where-at q now interlocking x,
      )
    ]

-- The rows that Join leaves, but for the new one.
abbrev pub freed :
    ℕ → ℕ → Option InterlockingSession → List InterlockingSession → List InterlockingSession
freed now user current rows =
    end_all_for_user user now (maybe rows (λ s. end_session s.id now rows) current)

freed-IsExclusive :
    (now user : ℕ) (current : Option InterlockingSession) (rows : List InterlockingSession)
    → IsExclusive rows
    → IsExclusive (freed now user current rows)
unfolding end_session end_all_for_user
freed-IsExclusive now user none rows h = end_where-IsExclusive (is_open_by user) now rows h
freed-IsExclusive now user (some s) rows h =
    end_where-IsExclusive (is_open_by user) now _
      (end_where-IsExclusive (λ y. y.id == s.id) now rows h)

-- The interlocking is free then, and the caller staffs none.
pub freed-at :
    (now user interlocking : ℕ) (current : Option InterlockingSession)
    (rows : List InterlockingSession)
    → IsExclusive rows
    → find_row (is_open_at interlocking) rows ≡ current
    → count (is_open_at interlocking) (freed now user current rows) ≡ 0
unfolding end_all_for_user
freed-at now user i none rows h e = ground (
  arith,
  count-map-le (is_open_at i) (end_where (is_open_by user) now) rows
      (end_where-at (is_open_by user) now i),
  count-find_none (is_open_at i) rows e,
)
freed-at now user i (some s) rows h e = ground (
  arith,
  count-map-le (is_open_at i) (end_where (is_open_by user) now) (end_session s.id now rows)
      (end_where-at (is_open_by user) now i),
  end_session-count i now rows s e,
  h.0 i,
)

end_by-none :
    (now user : ℕ) (s : InterlockingSession)
    → is_open_by user (end_where (is_open_by user) now s) ≡ false
unfolding is_open
end_by-none now user s = ground arith

freed-by :
    (now user : ℕ) (current : Option InterlockingSession) (rows : List InterlockingSession)
    → count (is_open_by user) (freed now user current rows) ≡ 0
unfolding end_all_for_user
freed-by now user none rows =
    count-map_none (is_open_by user) (end_where (is_open_by user) now) rows (end_by-none now user)
freed-by now user (some s) rows =
    count-map_none (is_open_by user) (end_where (is_open_by user) now) _ (end_by-none now user)

abbrev pub new_session : ℕ → Readings → JoinInput → InterlockingSession
new_session now rd in_ = record {
  id = rd.next_id;
  interlocking_id = in_.interlocking_id;
  signalman_user_id = in_.actor.user_id;
  started_at = now;
  ended_at = none;
}

-- The index refuses no Join.
pub change_sessions-some :
    (now : ℕ) (rd : Readings) (in_ : JoinInput) (rows : List InterlockingSession)
    → IsExclusive rows
    → (current : Option InterlockingSession)
    → find_active_by_interlocking in_.interlocking_id rows ≡ current
    → change_sessions now rd in_ current rows
      ≡ some (freed now in_.actor.user_id current rows ++ new_session now rd in_ ∷ [])
unfolding change_sessions insert_session find_active_by_interlocking
change_sessions-some now rd in_ rows h current e =
    let free =
      find-count-none (is_open_at in_.interlocking_id) _
        (freed-at now in_.actor.user_id in_.interlocking_id current rows h e) in
    rw free refl

pub joined-IsExclusive :
    (now : ℕ) (rd : Readings) (in_ : JoinInput) (rows : List InterlockingSession)
    → IsExclusive rows
    → (current : Option InterlockingSession)
    → find_active_by_interlocking in_.interlocking_id rows ≡ current
    → IsExclusive (freed now in_.actor.user_id current rows ++ new_session now rd in_ ∷ [])
unfolding find_active_by_interlocking is_open
joined-IsExclusive now rd in_ rows h current e =
    let user = in_.actor.user_id in
    let f = freed now user current rows in
    let s = new_session now rd in_ in
    let keeps = freed-IsExclusive now user current rows h in
    (
      λ i. ground (
        arith,
        count-append (is_open_at i) f s,
        keeps.0 i,
        freed-at now user in_.interlocking_id current rows h e,
      ),
      λ u.
          ground
            (arith, count-append (is_open_by u) f s, keeps.1 u, freed-by now user current rows),
    )
