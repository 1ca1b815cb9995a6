-- ===== src/LocoStore/Observations.antt =====
-- ApplyObservation: a report of the bus against the last command.
use bigfred.Base.{
  ℕ, ◌+◌, ◌≡◌, ◌≢◌, ◌<◌, ◌≤◌, ◌⊎◌, refl, ap, ◌∙◌, ◌||◌, true, false, String, lookup-insert_self,
  nat_key, inl, inr, arith, Bool-cases,
}
use bigfred.LocoStore.Store.{
  LocoEntry, LocoStateStore, LocoObservation, command_suppress_window, entry, put_entry,
  contradicts, observe_window, observe_entry, apply_observation,
}

-- The entry that ApplyObservation writes.
entry-apply_observation :
    (o : LocoObservation) (source : String) (now : ℕ) (s : LocoStateStore)
    → entry o.addr (apply_observation o source now s).0
      ≡ (observe_entry o source now (entry o.addr s)).0
unfolding entry apply_observation
entry-apply_observation o source now s =
    let r = observe_entry o source now (entry o.addr s) in
    let stored : entry o.addr (put_entry o.addr r.0 s) ≡ r.0 =
      rw (lookup-insert_self o.addr r.0 s.entries) refl in
    elim (Bool-cases r.1) [ inl c ↦ rw c stored | inr c ↦ rw c stored ]

suppressed :
    (o : LocoObservation) (now : ℕ) (e : LocoEntry)
    → e.commanded_at ≢ 0
    → now < e.commanded_at + command_suppress_window
    → contradicts o e ≡ true
    → observe_window o now e ≡ (e.commanded_at, true)
unfolding observe_window
suppressed o now e n l c = ground (arith, n, l, c)

observe_entry-suppressed :
    (o : LocoObservation) (source : String) (now : ℕ) (e : LocoEntry)
    → e.commanded_at ≢ 0
    → observe_window o now e ≡ (e.commanded_at, true)
    → let t = (observe_entry o source now e).0 in
      (t.snap.speed ≡ e.snap.speed)
      × (t.snap.forward ≡ e.snap.forward)
      × (t.snap.controlled_by_user_id ≡ e.snap.controlled_by_user_id)
      × (t.commanded_at ≡ e.commanded_at)
unfolding observe_entry
observe_entry-suppressed o source now e n w = ground (arith, w, n)

-- A report that contradicts a command of less than 750 ms ago, in the speed or in the direction,
-- changes neither of the two, nor the controlling user, and the command's window stays open.
pub apply_observation-keeps_command :
    (o : LocoObservation) (source : String) (now : ℕ) (s : LocoStateStore)
    → let e = entry o.addr s in
      e.commanded_at ≢ 0
      → now < e.commanded_at + command_suppress_window
      → contradicts o e ≡ true
      → let t = entry o.addr (apply_observation o source now s).0 in
        (t.snap.speed ≡ e.snap.speed)
        × (t.snap.forward ≡ e.snap.forward)
        × (t.snap.controlled_by_user_id ≡ e.snap.controlled_by_user_id)
        × (t.commanded_at ≡ e.commanded_at)
apply_observation-keeps_command o source now s n l c =
    let e = entry o.addr s in
    rw (entry-apply_observation o source now s)
      (observe_entry-suppressed o source now e n (suppressed o now e n l c))

observe_entry-owner :
    (o : LocoObservation) (source : String) (now : ℕ) (e : LocoEntry)
    → let r = observe_entry o source now e in
      ((e.commanded_at ≡ 0) × (r.1 ≡ true) × (r.0.snap.controlled_by_user_id ≡ 0))
      ⊎ (((e.commanded_at ≢ 0) ⊎ (r.1 ≡ false))
          × (r.0.snap.controlled_by_user_id ≡ e.snap.controlled_by_user_id))
unfolding observe_entry
observe_entry-owner o source now e = ground arith

changed-apply_observation :
    (o : LocoObservation) (source : String) (now : ℕ) (s : LocoStateStore)
    → (apply_observation o source now s).1 ≡ (observe_entry o source now (entry o.addr s)).1
unfolding apply_observation
changed-apply_observation o source now s = refl

observe_window-over :
    (o : LocoObservation) (now : ℕ) (e : LocoEntry)
    → e.commanded_at ≢ 0
    → e.commanded_at + command_suppress_window ≤ now
    → (o.has_speed || o.has_forward) ≡ true
    → observe_window o now e ≡ (0, false)
unfolding observe_window
observe_window-over o now e n l m = ground (arith, n, l, m)

observe_entry-over :
    (o : LocoObservation) (source : String) (now : ℕ) (e : LocoEntry)
    → e.commanded_at ≢ 0
    → observe_window o now e ≡ (0, false)
    → let t = (observe_entry o source now e).0 in
      (t.snap.controlled_by_user_id ≡ e.snap.controlled_by_user_id) × (t.commanded_at ≡ 0)
unfolding observe_entry
observe_entry-over o source now e n w = ground (arith, w, n)

-- When 750 ms or more have gone by since the last command, the first report of a speed or a direction
-- does not take the locomotive from its controlling user, whatever it changes. The report after that
-- does, if it changes the state.
pub apply_observation-late :
    (o o' : LocoObservation) (source source' : String) (now now' : ℕ) (s : LocoStateStore)
    → (entry o.addr s).commanded_at ≢ 0
    → (entry o.addr s).commanded_at + command_suppress_window ≤ now
    → (o.has_speed || o.has_forward) ≡ true
    → o'.addr ≡ o.addr
    → (apply_observation o' source' now' (apply_observation o source now s).0).1 ≡ true
    → let first = (apply_observation o source now s).0 in
      let second = (apply_observation o' source' now' first).0 in
      ((entry o.addr first).snap.controlled_by_user_id
        ≡ (entry o.addr s).snap.controlled_by_user_id)
      × ((entry o'.addr second).snap.controlled_by_user_id ≡ 0)
apply_observation-late o o' source source' now now' s n l m same changes =
    let e = entry o.addr s in
    let first = (apply_observation o source now s).0 in
    let over = observe_entry-over o source now e n (observe_window-over o now e n l m) in
    let written = entry-apply_observation o source now s in
    let user = ap (λ (x : LocoEntry). x.snap.controlled_by_user_id) written ∙ over.0 in
    let closed : (entry o'.addr first).commanded_at ≡ 0 =
      ap (λ a. (entry a first).commanded_at) same
      ∙ (ap (λ (x : LocoEntry). x.commanded_at) written ∙ over.1) in
    (
      user,
      ap (λ (x : LocoEntry). x.snap.controlled_by_user_id)
            (entry-apply_observation o' source' now' first)
          ∙ ground (
            arith,
            observe_entry-owner o' source' now' (entry o'.addr first),
            closed,
            changed-apply_observation o' source' now' first,
            changes,
          ),
    )
