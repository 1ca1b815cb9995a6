-- ===== src/Lease/Commands/Checks.antt =====
-- The guards of the calls of server/cmd/lease.go, and buildLayoutRosterIndex.
use bigfred.Base.{
  ℕ, ◌*◌, Bool, false, not, ◌&&◌, ◌||◌, String, some, List, [], ◌∷◌, ltb, is_some, ◌==◌, nat_key,
  string_key, if◌then◌else◌,
}
use bigfred.Lease.Redis.{LeaseKey, Redis, Json}
use bigfred.Lease.Store.{LeaseRow, list_active}
use bigfred.Lease.Service.{
  LeaseEntry, User, RosterEntry, Repositories, ServiceError, Result, ◌>>=◌, or_err, err_if,
  LeaseService, build_lease_entry,
}

abbrev pub minute : ℕ
minute = 60000

-- LeaseMinDuration and LeaseMaxDuration
abbrev pub lease_min_duration : ℕ
lease_min_duration = minute

abbrev pub lease_max_duration : ℕ
lease_max_duration = 24 * 60 * minute

abbrev pub bad_duration : ℕ → Bool
bad_duration duration = ltb duration lease_min_duration || ltb lease_max_duration duration

-- The caller: the user, and whether the effective roles have RoleAdmin.
pub record Actor : Type 0 where
  pub id : ℕ
  pub login : String
  pub is_admin : Bool

unfoldable pub can_manage_granted_lease : Actor → ℕ → Bool
can_manage_granted_lease actor from = actor.id == from || actor.is_admin

unfoldable pub can_revoke_lease : Actor → LeaseEntry → Bool
can_revoke_lease actor entry =
    actor.id == entry.from_user_id || (actor.id == entry.to_user_id || actor.is_admin)

unfoldable pub validate_lease_input : ℕ → ℕ → ℕ → ℕ → Result (Unit {0})
validate_lease_input to owner limit duration = err_if (to == owner) ServiceError.lease_self >>= λ u.
    err_if (ltb 100 limit) ServiceError.invalid_speed_limit >>= λ v.
    err_if (bad_duration duration) ServiceError.invalid_duration

-- The roster that holds the targets of a kind.
abbrev pub roster_of : Repositories → ℕ → LeaseKey → Result (List RosterEntry)
roster_of repos layout key =
    or_err
      (if key.kind == "vehicle"
        then repos.list_vehicles layout
        else if key.kind == "train"
        then repos.list_trains layout
        else some [])
      ServiceError.repository_error

unfoldable pub on_roster : (RosterEntry → Bool) → List RosterEntry → Bool
on_roster p [] = false
on_roster p (e ∷ es) = p e || on_roster p es

module _ (repos : Repositories) where
  unfoldable pub resolve_target_owner : LeaseKey → Result User
  resolve_target_owner key =
      (if key.kind == "vehicle"
        then (or_err (repos.find_vehicle key.target_id) ServiceError.repository_error >>= λ v.
            err_if (not (is_some v.dcc_address)) ServiceError.target_not_drivable >>= λ u.
            Result.ok v.owner_user_id)
        else if key.kind == "train"
        then (or_err (repos.find_train key.target_id) ServiceError.repository_error >>= λ t.
            Result.ok t.owner_user_id)
        else Result.err ServiceError.target_not_on_layout)
      >>= λ owner. or_err (repos.find_user owner) ServiceError.user_not_found

  unfoldable pub ensure_lessee : ℕ → Result (Unit {0})
  ensure_lessee to = or_err (repos.find_user to) ServiceError.user_not_found >>= λ u.
      err_if (not u.active) ServiceError.account_deactivated

  unfoldable pub ensure_on_layout : ℕ → ℕ → LeaseKey → Result (Unit {0})
  ensure_on_layout layout owner key = roster_of repos layout key >>= λ es.
      err_if (not (on_roster (λ e. e.target_id == key.target_id && e.owner_user_id == owner) es))
        ServiceError.target_not_on_layout

  -- buildLayoutRosterIndex: which targets stand on the layout.
  unfoldable pub layout_roster_index : ℕ → Result (LeaseKey → Bool)
  layout_roster_index layout =
      or_err (repos.list_vehicles layout) ServiceError.repository_error >>= λ vs.
      or_err (repos.list_trains layout) ServiceError.repository_error >>= λ ts. Result.ok (λ key.
        on_roster (λ e. e.target_id == key.target_id) (if key.kind == "train" then ts else vs))

  -- The rows that stand on the layout, as entries.
  unfoldable pub enrich_indexed : (LeaseKey → Bool) → List LeaseRow → List LeaseEntry
  enrich_indexed idx [] = []
  enrich_indexed idx (row ∷ rows) =
      let rest = enrich_indexed idx rows in
      if idx row.key then build_lease_entry repos row ∷ rest else rest

abbrev pub Service : Redis → Type 0
Service r = LeaseService r.Db

module _ (r : Redis) (j : Json r.Payload) (repos : Repositories) (now : ℕ) where
  unfoldable pub ensure_not_leased : LeaseKey → Service r → Result (Unit {0})
  ensure_not_leased key s = elim (list_active r j now (key ∷ []) s.db) [
    | [] ↦ Result.ok tt
    | row ∷ rows ↦ Result.err ServiceError.lease_conflict
  ]

  -- The guards of Create, up to the roster index: the owner, and whether the index has the target.
  unfoldable pub create_checks : ℕ → Actor → LeaseKey → ℕ → ℕ → ℕ → Service r → Result (User × Bool)
  create_checks layout actor key to limit duration s =
      err_if (not repos.has_stores) ServiceError.store_unavailable >>= λ a.
      resolve_target_owner repos key >>= λ owner.
      err_if (not (actor.id == owner.id || actor.is_admin)) ServiceError.not_owner >>= λ b.
      validate_lease_input to owner.id limit duration >>= λ c. ensure_lessee repos to >>= λ d.
      ensure_on_layout repos layout owner.id key >>= λ e. ensure_not_leased key s >>= λ f.
      layout_roster_index repos layout >>= λ idx. Result.ok (owner, idx key)
