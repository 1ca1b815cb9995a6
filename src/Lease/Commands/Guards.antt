-- ===== src/Lease/Commands/Guards.antt =====
-- The guards of `Lease.Create` of server/cmd/lease.go, taken apart.
use bigfred.Base.{
  ℕ, ◌≡◌, refl, sym, ap, ◌∙◌, beq_eq, Bool, true, false, not, ◌&&◌, ◌||◌, Option, none, some, List,
  [], ◌∷◌, ltb, ◌==◌, nat_key, string_key, inl, inr, if◌then◌else◌, arith, Bool-cases,
}
use mathlib.Core.Path.{subst}
use bigfred.Lease.Redis.{LeaseKey, Redis, Json}
use bigfred.Lease.Service.{
  User, RosterEntry, Repositories, ServiceError, Result, ◌>>=◌, or_err, err_if, has_kind,
}
use bigfred.Lease.Commands.{
  Actor, bad_duration, validate_lease_input, roster_of, on_roster, resolve_target_owner,
  ensure_lessee, ensure_on_layout, layout_roster_index, ensure_not_leased, create_checks, Service,
}

-- What a chain that ends well gives at its first step.
pub bind-ok {ℓ κ μ} :
    {A : Type ℓ} {B : Type κ} {C : Type μ} (m : Result A) (f : A → Result B) (b : B)
    → (m >>= f) ≡ Result.ok b
    → ((a : A) → m ≡ Result.ok a → f a ≡ Result.ok b → C)
    → C
bind-ok (Result.ok a) f b h then_ = then_ a refl h
bind-ok (Result.err e) f b h then_ = cc

pub err_if-ok : (c : Bool) (e : ServiceError) (u : Unit {0}) → err_if c e ≡ Result.ok u → c ≡ false
err_if-ok c e u h = ground arith

pub or_err-ok {ℓ} :
    {A : Type ℓ} (o : Option A) (e : ServiceError) (a : A) → or_err o e ≡ Result.ok a → o ≡ some a
or_err-ok none e a h = cc
or_err-ok (some b) e a h = cc

-- What the guards let through.
pub record IsGrantable (actor : Actor) (key : LeaseKey) (to limit duration : ℕ) (owner : User)
    : Type 0 where
  pub kind : has_kind key ≡ true
  pub entitled : (actor.id == owner.id || actor.is_admin) ≡ true
  pub other : (to == owner.id) ≡ false
  pub limit_le : ltb 100 limit ≡ false
  pub duration_ok : bad_duration duration ≡ false

validate_lease_input-ok :
    (to owner limit duration : ℕ) (u : Unit {0})
    → validate_lease_input to owner limit duration ≡ Result.ok u
    → ((to == owner) ≡ false) × (ltb 100 limit ≡ false) × (bad_duration duration ≡ false)
unfolding validate_lease_input
validate_lease_input-ok to owner limit duration u h =
    bind-ok (err_if (to == owner) ServiceError.lease_self) _ _ h (λ a p h1.
      bind-ok (err_if (ltb 100 limit) ServiceError.invalid_speed_limit) _ _ h1
        (λ b q h2. (err_if-ok _ _ _ p, err_if-ok _ _ _ q, err_if-ok _ _ _ h2)))

resolve_target_owner-kind :
    (repos : Repositories) (key : LeaseKey) (owner : User)
    → resolve_target_owner repos key ≡ Result.ok owner
    → has_kind key ≡ true
unfolding resolve_target_owner
resolve_target_owner-kind repos key owner h = elim (Bool-cases (key.kind == "vehicle")) [
  | inl p ↦ rw p refl
  | inr p ↦ elim (Bool-cases (key.kind == "train")) [
    | inl q ↦ rw (p, q) refl
    | inr q ↦ let never = rw (p, q) at h in cc
  ]
]

on_roster-weaken :
    (p q : RosterEntry → Bool) (es : List RosterEntry)
    → ((e : RosterEntry) → p e ≡ true → q e ≡ true)
    → on_roster p es ≡ true
    → on_roster q es ≡ true
unfolding on_roster
on_roster-weaken p q [] f h = h
on_roster-weaken p q (e ∷ es) f h = ground (arith, f e, on_roster-weaken p q es f)

ok_inj {ℓ} : {A : Type ℓ} (a b : A) → Result.ok a ≡ Result.ok b → a ≡ b
ok_inj a b h = cc

-- The roster that ensureOnLayout reads is the one that the index is made of.
roster-indexed :
    (repos : Repositories) (layout : ℕ) (key : LeaseKey) (vs ts es : List RosterEntry)
    → has_kind key ≡ true
    → or_err (repos.list_vehicles layout) ServiceError.repository_error ≡ Result.ok vs
    → or_err (repos.list_trains layout) ServiceError.repository_error ≡ Result.ok ts
    → roster_of repos layout key ≡ Result.ok es
    → (if key.kind == "train" then ts else vs) ≡ es
roster-indexed repos layout key vs ts es kind v t e = elim (Bool-cases (key.kind == "vehicle")) [
  | inl p ↦
      let not_train : (key.kind == "train") ≡ false = rw (beq_eq key.kind "vehicle" p) refl in
      let read = rw p at e in rw not_train (ok_inj _ _ (sym v ∙ read))
  | inr p ↦ elim (Bool-cases (key.kind == "train")) [
    | inl q ↦ let read = rw (p, q) at e in rw q (ok_inj _ _ (sym t ∙ read))
    | inr q ↦ let never = rw (p, q) at kind in cc
  ]
]

-- A target that ensureOnLayout finds is in the index of the layout.
on_layout-indexed :
    (repos : Repositories) (layout owner : ℕ) (key : LeaseKey) (u : Unit {0})
    (idx : LeaseKey → Bool)
    → has_kind key ≡ true
    → ensure_on_layout repos layout owner key ≡ Result.ok u
    → layout_roster_index repos layout ≡ Result.ok idx
    → idx key ≡ true
unfolding ensure_on_layout layout_roster_index
on_layout-indexed repos layout owner key u idx kind h g =
    bind-ok (or_err (repos.list_vehicles layout) ServiceError.repository_error) _ _ g (λ vs v g1.
      bind-ok (or_err (repos.list_trains layout) ServiceError.repository_error) _ _ g1 (λ ts t g2.
        bind-ok (roster_of repos layout key) _ _ h (λ es e h1.
          let same = roster-indexed repos layout key vs ts es kind v t e in
          let found : on_roster (λ x. x.target_id == key.target_id) es ≡ true =
            on_roster-weaken (λ x. x.target_id == key.target_id && x.owner_user_id == owner)
              (λ x. x.target_id == key.target_id) es (λ x q. ground (arith, q))
              (ground (arith, err_if-ok _ _ _ h1)) in
          let at_key = ok_inj _ _ g2 in sym (ap (λ f. f key) at_key) ∙ rw same found)))

module _ (r : Redis) (j : Json r.Payload) (repos : Repositories) (now : ℕ) where
  pub create_checks-ok :
      (layout : ℕ) (actor : Actor) (key : LeaseKey) (to limit duration : ℕ) (s : Service r)
      (owner : User) (indexed : Bool)
      → create_checks r j repos now layout actor key to limit duration s
        ≡ Result.ok (owner, indexed)
      → IsGrantable actor key to limit duration owner
        × (ensure_not_leased r j repos now key s ≡ Result.ok tt)
        × (indexed ≡ true)
  unfolding create_checks
  create_checks-ok layout actor key to limit duration s owner indexed h =
      bind-ok (err_if (not repos.has_stores) ServiceError.store_unavailable) _ _ h (λ a ha h1.
        bind-ok (resolve_target_owner repos key) _ _ h1 (λ o ho h2.
          bind-ok (err_if (not (actor.id == o.id || actor.is_admin)) ServiceError.not_owner) _ _ h2
            (λ b hb h3. bind-ok (validate_lease_input to o.id limit duration) _ _ h3 (λ c hc h4.
              bind-ok (ensure_lessee repos to) _ _ h4 (λ d hd h5.
                bind-ok (ensure_on_layout repos layout o.id key) _ _ h5 (λ e he h6.
                  bind-ok (ensure_not_leased r j repos now key s) _ _ h6 (λ f hf h7.
                    bind-ok (layout_roster_index repos layout) _ _ h7 (λ idx hi h8.
                      let kind = resolve_target_owner-kind repos key o ho in
                      let checked = validate_lease_input-ok to o.id limit duration c hc in
                      let same : o ≡ owner = cc in
                      let found : idx key ≡ indexed = cc in
                      let in_index = on_layout-indexed repos layout o.id key e idx kind he hi in
                      let entitled = err_if-ok _ _ _ hb in
                      (
                        subst (λ o'. IsGrantable actor key to limit duration o') same
                            (record {
                              kind = kind;
                              entitled = ground (arith, entitled);
                              other = checked.0;
                              limit_le = checked.1;
                              duration_ok = checked.2;
                            }),
                        hf,
                        sym found ∙ in_index,
                      )))))))))
