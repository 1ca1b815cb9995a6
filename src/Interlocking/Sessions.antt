-- ===== src/Interlocking/Sessions.antt =====
-- server/repo/interlocking_sessions.go: the table of sessions as the list of its rows. A query reads
-- the rows in their order, and an update sets the row of its id.
use bigfred.Base.{
  ℕ, suc, ◌≤◌, ◌+◌, ◌≡◌, refl, Bool, true, false, not, ◌&&◌, Option, none, some, List, [], ◌∷◌,
  ◌++◌, map, is_some, ◌==◌, nat_key, arith, if◌then◌else◌,
}

pub record InterlockingSession : Type 0 where
  pub id : ℕ
  pub interlocking_id : ℕ
  pub signalman_user_id : ℕ
  pub started_at : ℕ
  pub ended_at : Option ℕ

unfoldable pub is_open : InterlockingSession → Bool
is_open s = not (is_some s.ended_at)

abbrev pub is_open_at : ℕ → InterlockingSession → Bool
is_open_at interlocking s = is_open s && s.interlocking_id == interlocking

abbrev pub is_open_by : ℕ → InterlockingSession → Bool
is_open_by user s = is_open s && s.signalman_user_id == user

unfoldable pub find_row :
    (InterlockingSession → Bool) → List InterlockingSession → Option InterlockingSession
find_row p [] = none
find_row p (s ∷ rows) = let rest = find_row p rows in if p s then some s else rest

unfoldable pub find_active_by_interlocking :
    ℕ → List InterlockingSession → Option InterlockingSession
find_active_by_interlocking interlocking rows = find_row (is_open_at interlocking) rows

abbrev pub ended : ℕ → InterlockingSession → InterlockingSession
ended at_ s = record {
  id = s.id;
  interlocking_id = s.interlocking_id;
  signalman_user_id = s.signalman_user_id;
  started_at = s.started_at;
  ended_at = some at_;
}

unfoldable pub end_session : ℕ → ℕ → List InterlockingSession → List InterlockingSession
end_session id at_ rows = map (λ s. if s.id == id then ended at_ s else s) rows

unfoldable pub end_all_for_user : ℕ → ℕ → List InterlockingSession → List InterlockingSession
end_all_for_user user at_ rows = map (λ s. if is_open_by user s then ended at_ s else s) rows

unfoldable pub end_all_stale : ℕ → List InterlockingSession → List InterlockingSession
end_all_stale at_ rows = map (λ s. if is_open s then ended at_ s else s) rows

-- The partial unique index refuses a second open row of an interlocking.
unfoldable pub insert_session :
    InterlockingSession → List InterlockingSession → Option (List InterlockingSession)
insert_session s rows =
    if is_some (find_active_by_interlocking s.interlocking_id rows)
    then none
    else some (rows ++ s ∷ [])

-- How many rows pass a test.
unfoldable pub count : (InterlockingSession → Bool) → List InterlockingSession → ℕ
count p [] = 0
count p (s ∷ rows) = let rest = count p rows in if p s then suc rest else rest

-- A change after which no further row passes does not raise the count.
pub count-map-le :
    (p : InterlockingSession → Bool) (f : InterlockingSession → InterlockingSession)
    (rows : List InterlockingSession)
    → ((s : InterlockingSession) → p (f s) ≡ true → p s ≡ true)
    → count p (map f rows) ≤ count p rows
unfolding count
count-map-le p f [] h = omega arith
count-map-le p f (s ∷ rows) h = ground (arith, h s, count-map-le p f rows h)

pub count-map_none :
    (p : InterlockingSession → Bool) (f : InterlockingSession → InterlockingSession)
    (rows : List InterlockingSession)
    → ((s : InterlockingSession) → p (f s) ≡ false)
    → count p (map f rows) ≡ 0
unfolding count
count-map_none p f [] h = omega arith
count-map_none p f (s ∷ rows) h = ground (arith, h s, count-map_none p f rows h)

pub count-append :
    (p : InterlockingSession → Bool) (rows : List InterlockingSession) (s : InterlockingSession)
    → count p (rows ++ s ∷ []) ≡ count p rows + (if p s then 1 else 0)
unfolding count
count-append p [] s = ground arith
count-append p (x ∷ rows) s = ground (arith, count-append p rows s)

pub count-find_none :
    (p : InterlockingSession → Bool) (rows : List InterlockingSession)
    → find_row p rows ≡ none
    → count p rows ≡ 0
unfolding count find_row
count-find_none p [] h = omega arith
count-find_none p (s ∷ rows) h = ground (arith, count-find_none p rows)

pub find-count-none :
    (p : InterlockingSession → Bool) (rows : List InterlockingSession)
    → count p rows ≡ 0
    → find_row p rows ≡ none
unfolding count find_row
find-count-none p [] h = refl
find-count-none p (s ∷ rows) h = ground (arith, find-count-none p rows)

pub find-append :
    (p : InterlockingSession → Bool) (rows : List InterlockingSession) (s : InterlockingSession)
    → find_row p rows ≡ none
    → p s ≡ true
    → find_row p (rows ++ s ∷ []) ≡ some s
unfolding find_row
find-append p [] s h q = ground (arith, q)
find-append p (x ∷ rows) s h q = ground (arith, find-append p rows s)
