-- ===== src/Lease/Commands.antt =====
-- server/cmd/lease.go: Create, Revoke, UpdateSpeedLimit, UpdateDuration, RecoverPending and the reads.
use bigfred.Base.{
  ℕ, ◌+◌, ◌*◌, Bool, true, false, not, ◌&&◌, ◌||◌, String, Option, none, some, List, [], ◌∷◌, ◌++◌,
  ltb, is_some, ◌==◌, nat_key, string_key, if◌then◌else◌, maybe, Map, Key,
}
use bigfred.Lease.Redis.{LeaseKey, Redis, Json}
use bigfred.Lease.Store.{
  LeaseRow, Answer, StoreError, is_active, get_lease, create_row, update_row, revoke_lease_key,
  list_active, list_from_index, lessee_key,
}
use bigfred.Lease.Service.{
  LeaseEntry, User, Target, RosterEntry, Repositories, ServiceError, Result, ◌>>=◌, or_err, err_if,
  EventType, LeaseEffect, LeaseService, build_lease_entry, publish_event, emit_all, with_db,
  refresh_timer_entry, schedule_expiry, cancel_timer, has_kind,
}
mod Checks
pub mod Guards
pub mod Outcomes
pub mod Loaded
unfoldable pub use Checks.*

module _ (r : Redis) (j : Json r.Payload) (repos : Repositories) (now : ℕ) where
  abbrev pub manual_row : LeaseKey → ℕ → ℕ → ℕ → ℕ → LeaseRow
  manual_row key from to limit duration = record {
    key = key;
    from_user_id = from;
    to_user_id = to;
    speed_limit = limit;
    started_at = now;
    expires_at = now + duration;
    source = "manual";
  }

  -- What the calls end with: the roster is sent out and the event is published.
  abbrev pub announce : ℕ → Actor → EventType → LeaseEntry → Service r → Service r
  announce layout actor typ entry s =
      emit_all
        (LeaseEffect.sync_layout_roster layout
          ∷ publish_event layout actor.id actor.login typ entry)
        s

  unfoldable pub create :
      ℕ → Actor → LeaseKey → ℕ → ℕ → ℕ → Service r → Result LeaseEntry × Service r
  create layout actor key to limit duration s =
      elim (create_checks r j repos now layout actor key to limit duration s) [
        | Result.err e ↦ (Result.err e, s)
        | Result.ok (owner, indexed) ↦
            let row = manual_row key owner.id to limit duration in
            let (created, db) = create_row r j now row false s.db in
            let entry = build_lease_entry repos row in
            if created
            then if indexed
              then (
                Result.ok entry,
                announce layout actor EventType.lease_created entry
                    (schedule_expiry now key row.expires_at entry (with_db db s)),
              )
              else (Result.err ServiceError.target_not_on_layout, with_db db s)
            else (Result.err ServiceError.lease_conflict, with_db db s)
      ]

  unfoldable pub load_lease : ℕ → LeaseKey → Service r → Result (LeaseEntry × LeaseRow)
  load_lease layout key s = err_if (not repos.has_stores) ServiceError.store_unavailable >>= λ a.
      layout_roster_index repos layout >>= λ idx.
      if has_kind key
      then elim (get_lease r j key s.db) [
        | Answer.failed e ↦ Result.err ServiceError.store_error
        | Answer.answer none ↦ Result.err ServiceError.lease_not_found
        | Answer.answer (some row) ↦
            err_if (not (is_active now row)) ServiceError.lease_not_found >>= λ b.
            err_if (not (idx key)) ServiceError.target_not_on_layout >>= λ c.
            Result.ok (build_lease_entry repos row, row)
      ]
      else Result.err ServiceError.lease_not_found

  -- The store's Revoke, at its place among the effects.
  unfoldable pub revoke_in_store : LeaseKey → Service r → Answer (Unit {0}) × Service r
  revoke_in_store key s =
      let (reply, db) = revoke_lease_key r j key s.db in
      (reply, emit_all (LeaseEffect.delete_lease key ∷ []) (with_db db s))

  -- Revoke after its guards: the target is braked before the lease goes.
  unfoldable pub revoke_loaded :
      ℕ → Actor → LeaseKey → LeaseEntry → LeaseRow → Service r → Result (Unit {0}) × Service r
  revoke_loaded layout actor key entry row s =
      let braked = emit_all (LeaseEffect.stop_leased_target layout key ∷ []) s in
      let (reply, gone) = revoke_in_store row.key braked in
      elim reply [
        | Answer.failed e ↦ (Result.err ServiceError.store_error, gone)
        | Answer.answer u ↦ (
          Result.ok tt,
          announce layout actor EventType.lease_revoked entry (cancel_timer key gone),
        )
      ]

  unfoldable pub revoke : ℕ → Actor → LeaseKey → Service r → Result (Unit {0}) × Service r
  revoke layout actor key s = elim (load_lease layout key s) [
    | Result.err e ↦ (Result.err e, s)
    | Result.ok (entry, row) ↦
        if can_revoke_lease actor entry
        then revoke_loaded layout actor key entry row s
        else (Result.err ServiceError.not_party, s)
  ]

  abbrev pub map_lease_store_err : StoreError → ServiceError
  map_lease_store_err StoreError.lease_not_found = ServiceError.lease_not_found
  map_lease_store_err StoreError.undecodable = ServiceError.store_error

  abbrev pub with_limit : ℕ → LeaseRow → LeaseRow
  with_limit limit row = record {
    key = row.key;
    from_user_id = row.from_user_id;
    to_user_id = row.to_user_id;
    speed_limit = limit;
    started_at = row.started_at;
    expires_at = row.expires_at;
    source = row.source;
  }

  abbrev pub with_expiry : ℕ → LeaseRow → LeaseRow
  with_expiry expires row = record {
    key = row.key;
    from_user_id = row.from_user_id;
    to_user_id = row.to_user_id;
    speed_limit = row.speed_limit;
    started_at = row.started_at;
    expires_at = expires;
    source = row.source;
  }

  -- The part that UpdateSpeedLimit and UpdateDuration share: the changed row is stored, then the
  -- timer is seen to and the change is announced, as `finish` says. The entry with the change is the
  -- entry of the changed row.
  unfoldable pub update_stored :
      LeaseRow → (LeaseEntry → Service r → Service r) → Service r → Result LeaseEntry × Service r
  update_stored row finish s =
      let (reply, db) = update_row r j now row s.db in
      let entry = build_lease_entry repos row in
      elim reply [
        | Answer.failed e ↦ (Result.err (map_lease_store_err e), with_db db s)
        | Answer.answer u ↦ (Result.ok entry, finish entry (with_db db s))
      ]

  unfoldable pub update_loaded :
      (LeaseRow → LeaseRow)
      → (LeaseEntry → Service r → Service r)
      → ℕ
      → Actor
      → LeaseKey
      → Service r
      → Result LeaseEntry × Service r
  update_loaded change finish layout actor key s = elim (load_lease layout key s) [
    | Result.err e ↦ (Result.err e, s)
    | Result.ok (entry, row) ↦
        if can_manage_granted_lease actor entry.from_user_id
        then update_stored (change row) finish s
        else (Result.err ServiceError.not_owner, s)
  ]

  -- How UpdateSpeedLimit and UpdateDuration end.
  abbrev pub limit_finish : ℕ → Actor → LeaseKey → LeaseEntry → Service r → Service r
  limit_finish layout actor key entry s =
      emit_all (publish_event layout actor.id actor.login EventType.lease_updated entry)
        (refresh_timer_entry key entry (emit_all (LeaseEffect.sync_layout_roster layout ∷ []) s))

  abbrev pub duration_finish : ℕ → Actor → LeaseKey → ℕ → LeaseEntry → Service r → Service r
  duration_finish layout actor key duration entry s =
      announce layout actor EventType.lease_updated entry
        (schedule_expiry now key (now + duration) entry s)

  unfoldable pub update_speed_limit :
      ℕ → Actor → LeaseKey → ℕ → Service r → Result LeaseEntry × Service r
  update_speed_limit layout actor key limit s =
      if not repos.has_stores
      then (Result.err ServiceError.store_unavailable, s)
      else if ltb 100 limit
      then (Result.err ServiceError.invalid_speed_limit, s)
      else update_loaded (with_limit limit) (limit_finish layout actor key) layout actor key s

  unfoldable pub update_duration :
      ℕ → Actor → LeaseKey → ℕ → Service r → Result LeaseEntry × Service r
  update_duration layout actor key duration s =
      if not repos.has_stores
      then (Result.err ServiceError.store_unavailable, s)
      else if bad_duration duration
      then (Result.err ServiceError.invalid_duration, s)
      else update_loaded (with_expiry (now + duration)) (duration_finish layout actor key duration)
          layout actor key s

  -- RecoverPending, over the rows that ListAll found of a kind.
  unfoldable pub recover_pending : List LeaseRow → Service r → Service r
  recover_pending [] s = s
  recover_pending (row ∷ rows) s = recover_pending rows (
      if is_active now row
      then schedule_expiry now row.key row.expires_at (build_lease_entry repos row) s
      else s)

  -- The rows come as the index has them, in force or not.
  unfoldable pub list_received : ℕ → ℕ → Service r → Result (List LeaseEntry) × Service r
  list_received layout user s = elim (layout_roster_index repos layout) [
    | Result.err e ↦ (Result.err e, s)
    | Result.ok idx ↦
        let (vehicles, db) = list_from_index r j (lessee_key "vehicle" user) s.db in
        let (trains, db') = list_from_index r j (lessee_key "train" user) db in
        (
          Result.ok (enrich_indexed repos idx vehicles ++ enrich_indexed repos idx trains),
          with_db db' s,
        )
  ]
