-- ===== src/Interlocking/Tests.antt =====
-- Two signalmen and a box, and the theorems on who staffs it.
use bigfred.Base.{
  ℕ, ◌≡◌, ◌≢◌, ◌⊎◌, refl, true, false, some, none, List, [], ◌∷◌, contains, nat_key, ◌==◌,
  if◌then◌else◌, lookup, insert,
}
use bigfred.Interlocking.Sessions
use bigfred.Interlocking.Sessions.{InterlockingSession}
use bigfred.Interlocking.Occupancy
use bigfred.Interlocking.Occupancy.{
  JoinError, JoinInput, JoinResult, Joined, Occupancy, OccupantInfo, Readings,
}
use bigfred.Interlocking.Exclusive.{IsExclusive}
use bigfred.Interlocking.Histories
use bigfred.Interlocking.Reads
use bigfred.Interlocking.Reads.{Tables, get_for_layout-list_for_layout}
use bigfred.Interlocking.Histories.{OccupancyCall, calls-IsExclusive, join-occupies}

program : Unit {0}
unfolding contains Sessions.is_open Sessions.find_row Sessions.find_active_by_interlocking
    Sessions.end_session Sessions.end_all_for_user Sessions.end_all_stale Sessions.insert_session
    Sessions.count Occupancy.may_signal Occupancy.can_occupy Occupancy.join_denied
    Occupancy.change_sessions Occupancy.join_effects Occupancy.join Occupancy.leave
    Histories.occupant_is Histories.call Histories.calls
program = tt

abbrev ann : OccupantInfo
ann = record { user_id = 1; login = "ann"; organization = "" }

abbrev bob : OccupantInfo
bob = record { user_id = 2; login = "bob"; organization = "" }

-- Layout 7 has the boxes 4 and 5, and the caller is a signalman.
abbrev readings : ℕ → Readings
readings next = record {
  interlocking_ids = 4 ∷ 5 ∷ [];
  layout_interlocking_ids = λ layout. 4 ∷ 5 ∷ [];
  users = λ user. if user == 1 then some ann else some bob;
  roles = record { is_signalman = true; is_admin = false };
  next_id = next;
}

abbrev input : ℕ → OccupantInfo → JoinInput
input interlocking user = record {
  interlocking_id = interlocking;
  layout_id = 7;
  actor = user;
  force = true;
}

abbrev no_sessions : Occupancy
no_sessions = record { sessions = []; effects = [] }

abbrev staffed : Occupancy
staffed = (Occupancy.join 100 (readings 1) (input 4 ann) no_sessions).1

-- User 2 forces user 1 out of the box.
abbrev forced : Joined × Occupancy
forced = Occupancy.join 200 (readings 2) (input 4 bob) staffed

forced_result : forced.0 ≡ Joined.joined (record { occupant = bob; displaced = some ann })
unfolding program
forced_result = refl

-- A signalman who moves from box 4 to box 5: nobody is told that box 4 is free.
abbrev told : List Occupancy.OccupancyEffect
told =
    (Occupancy.join 200 (readings 2) (input 5 ann)
      (record { sessions = staffed.sessions; effects = [] })).1.effects

moved_effects :
    told
    ≡ Occupancy.OccupancyEffect.broadcast_occupant 7 5 (some ann) "joined"
      ∷ Occupancy.OccupancyEffect.refresh_presence 7
      ∷ []
unfolding program
moved_effects = refl

moved_box :
    Sessions.find_active_by_interlocking 4
      (Occupancy.join 200 (readings 2) (input 5 ann) staffed).1.sessions
    ≡ none
unfolding program
moved_box = refl

abbrev history : List OccupancyCall
history =
    OccupancyCall.join_call 100 (readings 1) (input 4 ann)
    ∷ OccupancyCall.join_call 200 (readings 2) (input 4 bob)
    ∷ OccupancyCall.join_call 300 (readings 3) (input 5 bob)
    ∷ OccupancyCall.leave_call 400 5 7 2
    ∷ []

calls-IsExclusive_example : IsExclusive (Histories.calls history no_sessions).sessions
calls-IsExclusive_example = calls-IsExclusive history

staffed-IsExclusive : IsExclusive staffed.sessions
unfolding Histories.calls Histories.call
staffed-IsExclusive =
    calls-IsExclusive (OccupancyCall.join_call 100 (readings 1) (input 4 ann) ∷ [])

join-occupies_example :
    ((e : JoinError) × (forced ≡ (Joined.refused e, staffed)) × (e ≢ JoinError.insert_refused))
    ⊎ ((r : JoinResult) × (forced.0 ≡ Joined.joined r)
        × (Histories.occupant_is 2 (Sessions.find_active_by_interlocking 4 forced.1.sessions)
            ≡ true)
        × IsExclusive forced.1.sessions)
join-occupies_example = join-occupies 200 (readings 2) (input 4 bob) staffed staffed-IsExclusive

abbrev box : ℕ → Reads.Interlocking
box id = record { id = id; name = "Nord"; location = ""; created_at = 0 }

abbrev tables : Tables
tables = record {
  interlockings = box 4 ∷ box 5 ∷ box 6 ∷ [];
  layout_interlocking_ids = λ layout. 4 ∷ 5 ∷ [];
  users = λ user. if user == 1 then some ann else none;
}

listed_boxes :
    Reads.list_for_layout tables staffed.sessions 7
    ≡ record { interlocking = box 4; occupant = some ann }
      ∷ record { interlocking = box 5; occupant = none }
      ∷ []
unfolding program Reads.list_for_layout Reads.list_by_ids Reads.list_open Reads.by_interlocking
    Reads.with_occupant lookup insert
listed_boxes = refl

get_for_layout-list_for_layout_example :
    Reads.answer (Reads.get_for_layout tables staffed.sessions 7 4)
    ≡ Reads.find_item 4 (Reads.list_for_layout tables staffed.sessions 7)
get_for_layout-list_for_layout_example =
    get_for_layout-list_for_layout tables staffed.sessions 7 4 staffed-IsExclusive
