-- ===== src/Interlocking/Reads.antt =====
-- server/cmd/interlocking_occupancy.go: GetForLayout and ListForLayout, which pair an interlocking
-- with its occupant. The one asks the sessions' table for each box, the other indexes the open rows.
use bigfred.Base.{
  ℕ, ◌≤◌, ◌≡◌, refl, not, String, Option, none, some, List, [], ◌∷◌, map, maybe, contains, ◌==◌,
  beq_eq, nat_key, arith, if◌then◌else◌, Bool-cases, Option-cases, inl, inr, Map, lookup, insert,
  lookup-insert,
}
use bigfred.Interlocking.Sessions.{
  InterlockingSession, is_open, is_open_at, find_row, find_active_by_interlocking, count,
  find-count-none,
}
use bigfred.Interlocking.Occupancy.{OccupantInfo, JoinError}
use bigfred.Interlocking.Exclusive.{IsExclusive}

pub record Interlocking : Type 0 where
  pub id : ℕ
  pub name : String
  pub location : String
  pub created_at : ℕ

pub record InterlockingWithOccupant : Type 0 where
  pub interlocking : Interlocking
  pub occupant : Option OccupantInfo

-- The tables that the two calls read: `interlockings` in the order of the names.
pub record Tables : Type 0 where
  pub interlockings : List Interlocking
  pub layout_interlocking_ids : ℕ → List ℕ
  pub users : ℕ → Option OccupantInfo

pub data Got : Type 0 where
  got : InterlockingWithOccupant → Got
  get_refused : JoinError → Got

unfoldable pub find_by_id : ℕ → List Interlocking → Option Interlocking
find_by_id id [] = none
find_by_id id (row ∷ rows) =
    let rest = find_by_id id rows in if row.id == id then some row else rest

unfoldable pub list_by_ids : List ℕ → List Interlocking → List Interlocking
list_by_ids ids [] = []
list_by_ids ids (row ∷ rows) =
    let rest = list_by_ids ids rows in if contains row.id ids then row ∷ rest else rest

unfoldable pub list_open : List InterlockingSession → List InterlockingSession
list_open [] = []
list_open (s ∷ rows) = let rest = list_open rows in if is_open s then s ∷ rest else rest

-- The map by interlocking, which a later row overwrites.
unfoldable pub by_interlocking :
    List InterlockingSession → Map ℕ InterlockingSession → Map ℕ InterlockingSession
by_interlocking [] m = m
by_interlocking (s ∷ active) m = by_interlocking active (insert s.interlocking_id s m)

unfoldable pub with_occupant :
    Tables → Option InterlockingSession → Interlocking → InterlockingWithOccupant
with_occupant t sess row = record {
  interlocking = row;
  occupant = maybe none (λ s. t.users s.signalman_user_id) sess;
}

unfoldable pub get_for_layout : Tables → List InterlockingSession → ℕ → ℕ → Got
get_for_layout t sessions layout interlocking =
    if not (contains interlocking (t.layout_interlocking_ids layout))
    then Got.get_refused JoinError.not_in_layout
    else maybe (Got.get_refused JoinError.interlocking_not_found)
        (λ row. Got.got (with_occupant t (find_active_by_interlocking interlocking sessions) row))
        (find_by_id interlocking t.interlockings)

unfoldable pub list_for_layout :
    Tables → List InterlockingSession → ℕ → List InterlockingWithOccupant
list_for_layout t sessions layout =
    let index = by_interlocking (list_open sessions) [] in
    map (λ row. with_occupant t (lookup row.id index) row)
      (list_by_ids (t.layout_interlocking_ids layout) t.interlockings)

-- The entry of a list for an interlocking.
unfoldable pub find_item : ℕ → List InterlockingWithOccupant → Option InterlockingWithOccupant
find_item id [] = none
find_item id (x ∷ xs) =
    let rest = find_item id xs in if x.interlocking.id == id then some x else rest

abbrev pub answer : Got → Option InterlockingWithOccupant
answer (Got.got x) = some x
answer (Got.get_refused e) = none

-- Where a box has one open row at most, the index has the row that the table finds.
lookup-by_interlocking :
    (i : ℕ) (rows : List InterlockingSession) (m : Map ℕ InterlockingSession)
    → count (is_open_at i) rows ≤ 1
    → lookup i (by_interlocking (list_open rows) m)
      ≡ maybe (lookup i m) some (find_row (is_open_at i) rows)
unfolding by_interlocking list_open find_row count
lookup-by_interlocking i [] m h = refl
lookup-by_interlocking i (s ∷ rows) m h = ground (
  arith,
  lookup-by_interlocking i rows m,
  lookup-by_interlocking i rows (insert s.interlocking_id s m),
  lookup-insert i s.interlocking_id s m,
  find-count-none (is_open_at i) rows,
)

lookup-index :
    (i : ℕ) (rows : List InterlockingSession)
    → count (is_open_at i) rows ≤ 1
    → lookup i (by_interlocking (list_open rows) []) ≡ find_active_by_interlocking i rows
unfolding lookup find_active_by_interlocking
lookup-index i rows h = elim (Option-cases (find_row (is_open_at i) rows)) [
  | inl e ↦ rw (lookup-by_interlocking i rows [] h, e) refl
  | inr (s, e) ↦ rw (lookup-by_interlocking i rows [] h, e) refl
]

-- The entry of a box in the list is that of its row, where the layout lists it.
find_item-list :
    (t : Tables) (f : ℕ → Option InterlockingSession) (i : ℕ) (ids : List ℕ)
    (rows : List Interlocking)
    → find_item i (map (λ row. with_occupant t (f row.id) row) (list_by_ids ids rows)) ≡ (
        if contains i ids
        then maybe none (λ row. some (with_occupant t (f i) row)) (find_by_id i rows)
        else none)
unfolding find_item list_by_ids find_by_id with_occupant
find_item-list t f i ids [] = ground arith
find_item-list t f i ids (row ∷ rows) = elim (Bool-cases (row.id == i)) [
  | inl p ↦ ground (arith, p, beq_eq row.id i p, find_item-list t f i ids rows)
  | inr p ↦ ground (arith, p, find_item-list t f i ids rows)
]

-- GetForLayout and ListForLayout agree: where no box is staffed twice, GetForLayout answers for a box
-- with the entry that ListForLayout has for it, and refuses a box exactly where the list has none.
pub get_for_layout-list_for_layout :
    (t : Tables) (sessions : List InterlockingSession) (layout interlocking : ℕ)
    → IsExclusive sessions
    → answer (get_for_layout t sessions layout interlocking)
      ≡ find_item interlocking (list_for_layout t sessions layout)
unfolding get_for_layout list_for_layout
get_for_layout-list_for_layout t sessions layout interlocking h =
    let item =
      find_item-list t (λ id. lookup id (by_interlocking (list_open sessions) [])) interlocking
        (t.layout_interlocking_ids layout) t.interlockings in
    let found = lookup-index interlocking sessions (h.0 interlocking) in
    elim (Bool-cases (contains interlocking (t.layout_interlocking_ids layout))) [
      | inr c ↦ rw (item, c) refl
      | inl c ↦ elim (Option-cases (find_by_id interlocking t.interlockings)) [
        | inl e ↦ rw (item, c, e) refl
        | inr (row, e) ↦ rw (item, c, e, found) refl
      ]
    ]
