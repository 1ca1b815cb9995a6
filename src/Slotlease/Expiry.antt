-- ===== src/Slotlease/Expiry.antt =====
-- Which leases the sweeps take: SweepDeferred and SweepIdle, seen address by address.
use bigfred.Base.{
  ℕ, ◌+◌, ◌≡◌, ◌≢◌, ◌⊎◌, refl, ap, ◌∙◌, Bool, true, false, ◌≤◌, ◌<◌, Option, none, some, [], ◌∷◌,
  Map, arith, Bool-cases, Option-cases, inl, inr, if◌then◌else◌, has, lookup, maybe, Distinct, ◌==◌,
  lookup-erase, nat_key, string_key, beq_eq, beq_ne,
}
use text.Mathlib.TextEquality.{eq_iff}
use bigfred.Slotlease.Types.{
  Lease, Leaser, HolderKey, Components, Effect, holder_key, holder_beq_iff, switcher_change,
  idle_timeout,
}
use bigfred.Slotlease.Ledger.{
  emit, drop_lease, drop_lease_bookkeeping, has_ws_holder, is_remote_only, youngest_drive,
}
use bigfred.Slotlease.Release.{stop_and_release_all}
use bigfred.Slotlease.Sweep.{
  is_idle, is_overdue, sweep_idle_leases, sweep_deferred_leases, sweep_idle, sweep_deferred,
}
use bigfred.Slotlease.Counts.{drop_holders-leases, Limits, limits, limits-drop_holders}
use bigfred.Slotlease.Untouched.{core-stop_and_release_all, core-drain_release_pending}

-- The entries of `m` that a test takes are gone from the leases; the others are as they were.
abbrev after_sweep : (Lease → Bool) → ℕ → Map ℕ Lease → Option Lease → Option Lease
after_sweep test b m now = if maybe false test (lookup b m) then none else now

lookup-sweep_deferred_leases :
    (now b : ℕ) (m : Map ℕ Lease) (s : Leaser)
    → Distinct m
    → lookup b (sweep_deferred_leases now m s).0.leases
      ≡ after_sweep (is_overdue now) b m (lookup b s.leases)
unfolding sweep_deferred_leases lookup
lookup-sweep_deferred_leases now b [] s d = refl
lookup-sweep_deferred_leases now b ((a, le) ∷ m) s d = ground (
  arith,
  lookup-sweep_deferred_leases now b m s d.1,
  lookup-sweep_deferred_leases now b m (drop_lease a s) d.1,
  lookup-erase b a s.leases,
  d.0,
)

pub lookup-sweep_deferred :
    (c : Components) (now b : ℕ) (s : Leaser)
    → Distinct s.leases
    → lookup b (sweep_deferred c now s).leases
      ≡ (if maybe false (is_overdue now) (lookup b s.leases) then none else lookup b s.leases)
unfolding sweep_deferred
lookup-sweep_deferred c now b s d =
    let r = sweep_deferred_leases now s.leases s in
    ap (λ (x : Leaser). lookup b x.leases)
      (core-stop_and_release_all c r.1 switcher_change (emit Effect.notify_diag r.0))
    ∙ lookup-sweep_deferred_leases now b s.leases s d

lookup-drop_lease_bookkeeping :
    (b a : ℕ) (s : Leaser)
    → lookup b (drop_lease_bookkeeping a s).leases ≡ (if a == b then none else lookup b s.leases)
unfolding drop_lease_bookkeeping
lookup-drop_lease_bookkeeping b a s = elim (Option-cases (lookup a s.leases)) [
  | inl e ↦ rw (e, drop_lease_bookkeeping) (ground (arith, e))
  | inr (le, e) ↦
      rw (e, drop_lease_bookkeeping)
        (rw (drop_holders-leases a le.holders s) (lookup-erase b a s.leases))
]

limits-drop_lease_bookkeeping :
    (a : ℕ) (s : Leaser) → limits (drop_lease_bookkeeping a s) ≡ limits s
unfolding drop_lease_bookkeeping
limits-drop_lease_bookkeeping a s = elim (Option-cases (lookup a s.leases)) [
  | inl e ↦ rw (e, drop_lease_bookkeeping) refl
  | inr (le, e) ↦ rw (e, drop_lease_bookkeeping) (limits-drop_holders a le.holders s)
]

lookup-sweep_idle_leases :
    (timeout now b : ℕ) (m : Map ℕ Lease) (s : Leaser)
    → Distinct m
    → s.idle_timeout ≡ timeout
    → lookup b (sweep_idle_leases now m s).0.leases
      ≡ after_sweep (is_idle timeout now) b m (lookup b s.leases)
unfolding sweep_idle_leases lookup
lookup-sweep_idle_leases timeout now b [] s d t = refl
lookup-sweep_idle_leases timeout now b ((a, le) ∷ m) s d t = ground (
  arith,
  lookup-sweep_idle_leases timeout now b m s d.1 t,
  lookup-sweep_idle_leases timeout now b m (drop_lease_bookkeeping a s) d.1,
  ap (λ (l : Limits). l.idle_timeout) (limits-drop_lease_bookkeeping a s),
  lookup-drop_lease_bookkeeping b a s,
  d.0,
)

pub lookup-sweep_idle :
    (c : Components) (now b : ℕ) (s : Leaser)
    → Distinct s.leases
    → s.idle_timeout ≢ 0
    → lookup b (sweep_idle c now s).leases ≡ (
        if maybe false (is_idle s.idle_timeout now) (lookup b s.leases)
        then none
        else lookup b s.leases)
unfolding sweep_idle
lookup-sweep_idle c now b s d n =
    let r = sweep_idle_leases now s.leases s in
    let s1 = emit Effect.notify_diag r.0 in
    rw (beq_ne s.idle_timeout 0 n) (
      ap (λ (x : Leaser). lookup b x.leases)
        (core-drain_release_pending c (stop_and_release_all c r.1 idle_timeout s1)
          ∙ core-stop_and_release_all c r.1 idle_timeout s1)
      ∙ lookup-sweep_idle_leases s.idle_timeout now b s.leases s d refl)

-- SweepDeferred at an address with a lease, where no address stands twice in the ledger: the lease
-- goes exactly when its release is scheduled for no later than now, and otherwise stays as it is.
pub sweep_deferred-takes_overdue :
    (c : Components) (now b : ℕ) (s : Leaser) (le : Lease)
    → Distinct s.leases
    → lookup b s.leases ≡ some le
    → ((le.release_at ≢ 0)
        × (le.release_at ≤ now)
        × (lookup b (sweep_deferred c now s).leases ≡ none))
      ⊎ (((le.release_at ≡ 0) ⊎ (now < le.release_at))
          × (lookup b (sweep_deferred c now s).leases ≡ some le))
unfolding is_overdue
sweep_deferred-takes_overdue c now b s le d e = ground (arith, lookup-sweep_deferred c now b s d, e)

has_ws_holder_of :
    (k : HolderKey) (hs : Map HolderKey (Unit {0}))
    → has k hs ≡ true
    → k.source ≡ "ws"
    → has_ws_holder hs ≡ true
unfolding has_ws_holder lookup
has_ws_holder_of k [] h w = cc
has_ws_holder_of k ((j, x) ∷ hs) h w =
    ground (arith, holder_beq_iff j k, eq_iff j.source "ws", has_ws_holder_of k hs)

youngest-le :
    (hs : Map HolderKey (Unit {0})) (drives : Map HolderKey ℕ) (young : ℕ)
    → young ≤ youngest_drive hs drives young
unfolding youngest_drive
youngest-le hs [] young = omega arith
youngest-le hs ((k, at) ∷ rest) young =
    ground (arith, youngest-le hs rest young, youngest-le hs rest at)

drive-le-youngest :
    (k : HolderKey) (at : ℕ) (hs : Map HolderKey (Unit {0})) (drives : Map HolderKey ℕ) (young : ℕ)
    → has k hs ≡ true
    → lookup k drives ≡ some at
    → at ≤ youngest_drive hs drives young
unfolding youngest_drive lookup
drive-le-youngest k at hs [] young h e = cc
drive-le-youngest k at hs ((j, bt) ∷ rest) young h e = elim (Bool-cases (j == k)) [
  | inl p ↦ ground (
    arith,
    p,
    ap (λ x. has x hs) (beq_eq j k p),
    youngest-le hs rest bt,
    youngest-le hs rest young,
  )
  | inr p ↦
      ground (arith, p, drive-le-youngest k at hs rest bt h, drive-le-youngest k at hs rest young h)
]

-- What keeps a lease from the idle sweep.
abbrev pub IsActive : ℕ → ℕ → HolderKey → Lease → Type 0
IsActive timeout now k le =
    (k.source ≡ "ws") ⊎ ((at : ℕ) × (lookup k le.last_drive_at ≡ some at) × (now < at + timeout))

active-not-idle :
    (timeout now : ℕ) (k : HolderKey) (le : Lease)
    → has k le.holders ≡ true
    → IsActive timeout now k le
    → is_idle timeout now le ≡ false
unfolding is_idle is_remote_only
active-not-idle timeout now k le h (inl w) = ground (arith, has_ws_holder_of k le.holders h w)
active-not-idle timeout now k le h (inr (at, e, l)) =
    ground (arith, drive-le-youngest k at le.holders le.last_drive_at 0 h e)

-- Where no address stands twice in the ledger, SweepIdle leaves a lease as it is that some holder
-- keeps active: one on a web socket, or one whose last drive is less than the timeout ago.
sweep_idle-spares_active :
    (c : Components) (now b : ℕ) (s : Leaser) (le : Lease) (k : HolderKey)
    → Distinct s.leases
    → lookup b s.leases ≡ some le
    → has k le.holders ≡ true
    → IsActive s.idle_timeout now k le
    → lookup b (sweep_idle c now s).leases ≡ some le
sweep_idle-spares_active c now b s le k d e h a = elim (Bool-cases (s.idle_timeout == 0)) [
  | inl z ↦ unfold sweep_idle in rw z e
  | inr z ↦
      rw (lookup-sweep_idle c now b s d (ground arith))
        (rw e (rw (active-not-idle s.idle_timeout now k le h a) refl))
]
