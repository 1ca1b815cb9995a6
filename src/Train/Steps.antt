-- ===== src/Train/Steps.antt =====
-- The steps of a ramp.
use bigfred.Base.{
  ℕ, zero, suc, ◌+◌, ◌-◌, ◌*◌, ◌/◌, ◌%◌, ◌≡◌, ◌≢◌, ◌≤◌, ◌<◌, ◌⊎◌, refl, ap, Bool, true, false, ◌&&◌,
  List, [], ◌∷◌, length, ltb, nat_key, inl, inr, arith, Bool-cases,
}
use native.Mathlib.Nat.{mul-div-le}
use bigfred.Train.Ramp.{
  min_speed_ramp_step_ms, shrink_steps, plan_speed_ramp_intervals, next_speed, ramp_loop,
  plan_accel_ramp_step_delta, accel_ramp_speeds,
}

shrink_steps-cases :
    (ramp_ms n : ℕ)
    → n ≢ 0
    → (0 < shrink_steps ramp_ms n)
      × (shrink_steps ramp_ms n ≤ n)
      × ((shrink_steps ramp_ms n ≡ 1) ⊎ (min_speed_ramp_step_ms ≤ ramp_ms / shrink_steps ramp_ms n))
unfolding shrink_steps
shrink_steps-cases ramp_ms zero h = absurd (h refl)
shrink_steps-cases ramp_ms (suc n) h =
    elim (Bool-cases (ltb 0 n && ltb (ramp_ms / suc n) min_speed_ramp_step_ms)) [
      | inl e ↦ rw e (ground (arith, shrink_steps-cases ramp_ms n, e))
      | inr e ↦ rw e (ground (arith, e))
    ]

-- A ramp has at least one step and no more than allowed, and either one step only or at least half a
-- second from a step to the next.
pub plan_speed_ramp_intervals-fits :
    (ramp_ms max_steps : ℕ)
    → max_steps ≢ 0
    → let (steps, interval_ms) = plan_speed_ramp_intervals ramp_ms max_steps in
      (0 < steps) × (steps ≤ max_steps) × ((steps ≡ 1) ⊎ (min_speed_ramp_step_ms ≤ interval_ms))
unfolding plan_speed_ramp_intervals
plan_speed_ramp_intervals-fits ramp_ms max_steps h =
    let (p, q, r) = shrink_steps-cases ramp_ms max_steps h in
    elim (Bool-cases (ltb (shrink_steps ramp_ms max_steps) 1)) [
      | inl e ↦ absurd (ground (arith, p, e))
      | inr e ↦ rw e (p, q, r)
    ]

-- Each speed is at least the one before, from `low` on, and the last one is the target.
abbrev pub Climbs : ℕ → ℕ → List ℕ → Type 0
Climbs low target [] = low ≡ target
Climbs low target (x ∷ xs) = (low ≤ x) × Climbs x target xs

-- Each speed is at most the one before, from `high` on, and the last one is the target.
abbrev pub Falls : ℕ → ℕ → List ℕ → Type 0
Falls high target [] = high ≡ target
Falls high target (x ∷ xs) = (x ≤ high) × Falls x target xs

length-ramp_loop :
    (per_step : ℕ) (down : Bool) (target n speed : ℕ)
    → length (ramp_loop per_step down target n speed) ≡ n
unfolding ramp_loop
length-ramp_loop per_step down target zero speed = refl
length-ramp_loop per_step down target (suc zero) speed = refl
length-ramp_loop per_step down target (suc (suc n)) speed =
    ap suc (length-ramp_loop per_step down target (suc n) (next_speed per_step down speed))

ramp_loop-Climbs :
    (per_step target n speed : ℕ)
    → target < 256
    → speed + suc n * per_step ≤ target
    → Climbs speed target (ramp_loop per_step false target (suc n) speed)
unfolding ramp_loop
ramp_loop-Climbs per_step target zero speed b l = (ground (arith, b, l), ground (arith, b))
ramp_loop-Climbs per_step target (suc n) speed b l =
    let small : (speed + per_step) % 256 ≡ speed + per_step = ground (arith, b, l) in
    rw small
      (omega arith, ramp_loop-Climbs per_step target n (speed + per_step) b (ground (arith, l)))

ramp_loop-Falls :
    (per_step target n speed : ℕ)
    → speed < 256
    → target + suc n * per_step ≤ speed
    → Falls speed target (ramp_loop per_step true target (suc n) speed)
unfolding ramp_loop
ramp_loop-Falls per_step target zero speed b l = (ground (arith, b, l), ground (arith, b, l))
ramp_loop-Falls per_step target (suc n) speed b l =
    let small : (speed - per_step) % 256 ≡ speed - per_step = ground (arith, b) in
    rw small (
      omega arith,
      ramp_loop-Falls per_step target n (speed - per_step) (omega (arith, b)) (ground (arith, l)),
    )

accel_ramp_speeds_down :
    (current target n : ℕ)
    → target < current
    → accel_ramp_speeds current target (suc n)
      ≡ ramp_loop ((current - target) / suc n) true target (suc n) current
unfolding accel_ramp_speeds plan_accel_ramp_step_delta
accel_ramp_speeds_down current target n l = ground (arith, l)

accel_ramp_speeds_up :
    (current target n : ℕ)
    → current ≤ target
    → accel_ramp_speeds current target (suc n)
      ≡ ramp_loop ((target - current) / suc n) false target (suc n) current
unfolding accel_ramp_speeds plan_accel_ramp_step_delta
accel_ramp_speeds_up current target n l = ground (arith, l)

-- The speeds of a ramp with at least one step, from one speed of a byte to another: as many as there
-- are steps, never turning back, and the last one is the target.
pub accel_ramp_speeds-reaches :
    (current target n : ℕ)
    → current < 256
    → target < 256
    → let speeds = accel_ramp_speeds current target (suc n) in
      (length speeds ≡ suc n)
      × (((current ≤ target) × Climbs current target speeds)
          ⊎ ((target < current) × Falls current target speeds))
accel_ramp_speeds-reaches current target n bc bt = elim (Bool-cases (ltb target current)) [
  | inl e ↦
      let l : target < current = ground (arith, e) in
      let per_step = (current - target) / suc n in
      rw (accel_ramp_speeds_down current target n l) (
        length-ramp_loop per_step true target (suc n) current,
        inr (
          l,
          ramp_loop-Falls per_step target n current bc
              (ground (arith, l, mul-div-le (current - target) (suc n))),
        ),
      )
  | inr e ↦
      let l : current ≤ target = ground (arith, e) in
      let per_step = (target - current) / suc n in
      rw (accel_ramp_speeds_up current target n l) (
        length-ramp_loop per_step false target (suc n) current,
        inl (
          l,
          ramp_loop-Climbs per_step target n current bt
              (ground (arith, l, mul-div-le (target - current) (suc n))),
        ),
      )
]
