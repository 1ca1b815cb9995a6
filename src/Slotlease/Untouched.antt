-- ===== src/Slotlease/Untouched.antt =====
-- What the release machinery leaves alone: the leases and the counts per user.
use bigfred.Base.{ℕ, zero, suc, ◌≡◌, refl, ◌∙◌, Option, none, some, List, [], ◌∷◌, Map, arith}
use bigfred.Slotlease.Types.{Leaser, ReleaseReason, LeaseError, SlotStation, Components}
use bigfred.Slotlease.Release.{
  release_aborted_by_reuse, retry_release, release_slot_with_retry, stored_forward, write_stop,
  broadcast_stop, estop_before_release, settle_release, stop_and_release, stop_and_release_all,
  release_scheduled, enqueue_release, settle_pending, drain_pending, drain_release_pending,
}

-- The ledger without the release queue, the marks of releases under way and the effects.
abbrev pub core : Leaser → Leaser
core s = record s { releasing = []; release_pending = []; release_ch = []; effects = [] }

pub core-aborted : (a : ℕ) (s : Leaser) → core (release_aborted_by_reuse a s).0 ≡ core s
unfolding release_aborted_by_reuse
core-aborted a s = ground arith

pub core-retry :
    (st : SlotStation) (a n : ℕ) (last : Option LeaseError) (s : Leaser)
    → core (retry_release st a n last s).0 ≡ core s
unfolding retry_release
core-retry st a zero last s = refl
core-retry st a (suc n) last s = grind (arith, core-retry st a n)

pub core-settled :
    (a : ℕ) (reason : ReleaseReason) (r : Leaser × Option LeaseError)
    → core (settle_release a reason r) ≡ core r.0
unfolding settle_release
core-settled a reason (s, none) = refl
core-settled a reason (s, some err) = refl

pub core-settled_pending :
    (a : ℕ) (r : Leaser × Option LeaseError) → core (settle_pending a r) ≡ core r.0
unfolding settle_pending
core-settled_pending a (s, none) = refl
core-settled_pending a (s, some err) = refl

module _ (c : Components) where
  pub core-retried : (a : ℕ) (s : Leaser) → core (release_slot_with_retry c a s).0 ≡ core s
  unfolding release_slot_with_retry release_aborted_by_reuse
  core-retried a s = grind (arith, core-retry)

  pub core-estop : (a : ℕ) (s : Leaser) → core (estop_before_release c a s) ≡ core s
  unfolding estop_before_release stored_forward write_stop broadcast_stop
  core-estop a s = ground arith

  pub core-stop_and_release :
      (a : ℕ) (reason : ReleaseReason) (s : Leaser) → core (stop_and_release c a reason s) ≡ core s
  unfolding stop_and_release
  core-stop_and_release a reason s =
      grind (arith, core-aborted, core-estop, core-settled, core-retried)

  pub core-stop_and_release_all :
      (out : List ℕ) (reason : ReleaseReason) (s : Leaser)
      → core (stop_and_release_all c out reason s) ≡ core s
  unfolding stop_and_release_all
  core-stop_and_release_all [] reason s = refl
  core-stop_and_release_all (a ∷ out) reason s =
      core-stop_and_release_all out reason (stop_and_release c a reason s)
      ∙ core-stop_and_release a reason s

  pub core-release_scheduled :
      (a : ℕ) (reason : ReleaseReason) (s : Leaser) → core (release_scheduled c a reason s) ≡ core s
  unfolding release_scheduled
  core-release_scheduled a reason s = grind (arith, core-stop_and_release)

  pub core-enqueue_release :
      (a : ℕ) (reason : ReleaseReason) (s : Leaser) → core (enqueue_release c a reason s) ≡ core s
  unfolding enqueue_release
  core-enqueue_release a reason s = grind (arith, core-release_scheduled)

  pub core-drain_pending :
      (pending : Map ℕ (Unit {0})) (s : Leaser) → core (drain_pending c pending s) ≡ core s
  unfolding drain_pending
  core-drain_pending [] s = refl
  core-drain_pending ((a, _) ∷ rest) s =
      core-drain_pending rest _
      ∙ (core-settled_pending a (release_slot_with_retry c a s) ∙ core-retried a s)

  pub core-drain_release_pending : (s : Leaser) → core (drain_release_pending c s) ≡ core s
  unfolding drain_release_pending
  core-drain_release_pending s = core-drain_pending s.release_pending s
