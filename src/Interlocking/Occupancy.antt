-- ===== src/Interlocking/Occupancy.antt =====
-- server/cmd/interlocking_occupancy.go: Join and Leave, with the rules CanOccupy and CanDisplace of
-- server/security/interlocking.go. A call reads tables, and a database that fails is left out.
use bigfred.Base.{
  ℕ, Bool, true, false, not, ◌&&◌, ◌||◌, String, Option, none, some, List, [], ◌∷◌, ◌++◌, maybe,
  is_some, contains, ◌==◌, nat_key, if◌then◌else◌,
}
use bigfred.Interlocking.Sessions.{
  InterlockingSession, find_active_by_interlocking, end_session, end_all_for_user, insert_session,
}

pub record OccupantInfo : Type 0 where
  pub user_id : ℕ
  pub login : String
  pub organization : String

-- The effective roles that the rules ask for.
pub record EffectiveRoles : Type 0 where
  pub is_signalman : Bool
  pub is_admin : Bool

pub data JoinError : Type 0 where
  interlocking_not_found not_in_layout not_signalman interlocking_occupied insert_refused :
      JoinError

pub data OccupancyEffect : Type 0 where
  release_all_for_signalman : ℕ → String → OccupancyEffect
  broadcast_occupant : ℕ → ℕ → Option OccupantInfo → String → OccupancyEffect
  refresh_presence : ℕ → OccupancyEffect

pub record JoinInput : Type 0 where
  pub interlocking_id : ℕ
  pub layout_id : ℕ
  pub actor : OccupantInfo
  pub force : Bool

pub record JoinResult : Type 0 where
  pub occupant : OccupantInfo
  pub displaced : Option OccupantInfo

pub data Joined : Type 0 where
  joined : JoinResult → Joined
  refused : JoinError → Joined

-- The tables and the caller's roles, as the call reads them.
pub record Readings : Type 0 where
  pub interlocking_ids : List ℕ
  pub layout_interlocking_ids : ℕ → List ℕ
  pub users : ℕ → Option OccupantInfo
  pub roles : EffectiveRoles
  pub next_id : ℕ

pub record Occupancy : Type 0 where
  pub sessions : List InterlockingSession
  pub effects : List OccupancyEffect

unfoldable pub may_signal : EffectiveRoles → Bool
may_signal eff = eff.is_signalman || eff.is_admin

-- CanOccupy: `none` allows it.
unfoldable pub can_occupy :
    EffectiveRoles → ℕ → Bool → Option InterlockingSession → Option JoinError
can_occupy eff actor listed current =
    if not listed
    then some JoinError.not_in_layout
    else if not (may_signal eff)
    then some JoinError.not_signalman
    else maybe none
        (λ s. if s.signalman_user_id == actor then none else some JoinError.interlocking_occupied)
        current

abbrev pub is_occupied : JoinError → Bool
is_occupied JoinError.interlocking_occupied = true
is_occupied e = false

-- The guards of Join behind the check for the occupant: CanOccupy, which force overrides where the box
-- is occupied, and then CanDisplace.
unfoldable pub join_denied : Readings → JoinInput → Option InterlockingSession → Option JoinError
join_denied rd in_ current =
    let listed = contains in_.interlocking_id (rd.layout_interlocking_ids in_.layout_id) in
    let displaced = is_some current && (in_.force && not (may_signal rd.roles)) in
    let displacing = if displaced then some JoinError.not_signalman else none in
    maybe displacing (λ e. if is_occupied e && in_.force then displacing else some e)
      (can_occupy rd.roles in_.actor.user_id listed current)

-- The transaction: the occupant's session ends, and the caller's, and a new one starts.
unfoldable pub change_sessions :
    ℕ
    → Readings
    → JoinInput
    → Option InterlockingSession
    → List InterlockingSession
    → Option (List InterlockingSession)
change_sessions now rd in_ current rows =
    let freed = maybe rows (λ s. end_session s.id now rows) current in
    insert_session
      (record {
        id = rd.next_id;
        interlocking_id = in_.interlocking_id;
        signalman_user_id = in_.actor.user_id;
        started_at = now;
        ended_at = none;
      })
      (end_all_for_user in_.actor.user_id now freed)

unfoldable pub join_effects :
    JoinInput → Option InterlockingSession → Option OccupantInfo → List OccupancyEffect
join_effects in_ current displaced =
    maybe []
      (λ s. OccupancyEffect.release_all_for_signalman s.signalman_user_id "signalman_left" ∷ [])
      current
    ++ maybe []
        (λ d.
          OccupancyEffect.broadcast_occupant in_.layout_id in_.interlocking_id none "displaced"
          ∷ [])
        displaced
    ++ OccupancyEffect.broadcast_occupant in_.layout_id in_.interlocking_id (some in_.actor)
        "joined"
      ∷ OccupancyEffect.refresh_presence in_.layout_id
      ∷ []

unfoldable pub join : ℕ → Readings → JoinInput → Occupancy → Joined × Occupancy
join now rd in_ o =
    let current = find_active_by_interlocking in_.interlocking_id o.sessions in
    let displaced = maybe none (λ s. rd.users s.signalman_user_id) current in
    if not (contains in_.interlocking_id rd.interlocking_ids)
    then (Joined.refused JoinError.interlocking_not_found, o)
    else if maybe false (λ s. s.signalman_user_id == in_.actor.user_id) current
    then (Joined.joined (record { occupant = in_.actor; displaced = none }), o)
    else elim (join_denied rd in_ current) [
      | some e ↦ (Joined.refused e, o)
      | none ↦ elim (change_sessions now rd in_ current o.sessions) [
        | none ↦ (Joined.refused JoinError.insert_refused, o)
        | some rows ↦ (
          Joined.joined (record { occupant = in_.actor; displaced = displaced }),
          record { sessions = rows; effects = o.effects ++ join_effects in_ current displaced },
        )
      ]
    ]

unfoldable pub leave : ℕ → ℕ → ℕ → ℕ → Occupancy → Occupancy
leave now interlocking layout user o =
    maybe o
      (λ s.
        if s.signalman_user_id == user
        then record {
          sessions = end_session s.id now o.sessions;
          effects =
              o.effects
              ++ OccupancyEffect.release_all_for_signalman user "signalman_left"
                ∷ OccupancyEffect.broadcast_occupant layout interlocking none "left"
                ∷ OccupancyEffect.refresh_presence layout
                ∷ [];
        }
        else o)
      (find_active_by_interlocking interlocking o.sessions)
