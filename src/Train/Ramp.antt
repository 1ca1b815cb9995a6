-- ===== src/Train/Ramp.antt =====
-- train_speed_scheduler.go: which members wait or ramp, and the steps of a ramp. The start delay is an
-- integer, as in the source. The other `int` settings are numbers: a negative one fails the same
-- `<= 0` guards as 0 does.
use bigfred.Base.{
  ℕ, zero, suc, ◌+◌, ◌-◌, ◌/◌, ◌%◌, Bool, true, false, not, ◌&&◌, ◌||◌, Option, none, some, List,
  [], ◌∷◌, ltb, leb, ℤ, is_zero, is_positive, ◌==◌, nat_key, if◌then◌else◌,
}

-- StartDelayMaxPreviousSpeed
abbrev pub start_delay_max_previous_speed : ℕ
start_delay_max_previous_speed = 1

-- MinSpeedRampStepMs
abbrev pub min_speed_ramp_step_ms : ℕ
min_speed_ramp_step_ms = 500

unfoldable pub is_start_delay_previous_speed : ℕ → Bool
is_start_delay_previous_speed speed = leb speed start_delay_max_previous_speed

unfoldable pub should_apply_accel_ramp : ℕ → ℕ → ℕ → ℤ → ℕ → Bool
should_apply_accel_ramp command_speed current_speed target_speed start_delay_ms accel_ramp_ms =
    if command_speed == 0 || (accel_ramp_ms == 0 || leb target_speed current_speed)
    then false
    else ltb start_delay_max_previous_speed current_speed || is_zero start_delay_ms

unfoldable pub should_apply_brake_ramp : ℕ → ℕ → ℕ → Bool
should_apply_brake_ramp current_speed target_speed brake_ramp_ms =
    ltb 0 brake_ramp_ms && ltb target_speed current_speed

unfoldable pub should_apply_start_delay : ℕ → Bool → ℕ → ℕ → ℤ → ℕ → Bool
should_apply_start_delay command_speed leading_was_at_start_speed current_speed target_speed
      start_delay_ms accel_ramp_ms =
    if command_speed == 0 || (not leading_was_at_start_speed || not (is_positive start_delay_ms))
    then false
    else if ltb start_delay_max_previous_speed current_speed || leb target_speed current_speed
    then false
    else not (
        should_apply_accel_ramp command_speed current_speed target_speed start_delay_ms
          accel_ramp_ms)

-- The loop of planSpeedRampIntervals, which counts `steps` down.
unfoldable pub shrink_steps : ℕ → ℕ → ℕ
shrink_steps ramp_ms zero = zero
shrink_steps ramp_ms (suc n) =
    let fewer = shrink_steps ramp_ms n in
    if ltb 0 n && ltb (ramp_ms / suc n) min_speed_ramp_step_ms then fewer else suc n

-- planSpeedRampIntervals: the steps, and the time between them.
unfoldable pub plan_speed_ramp_intervals : ℕ → ℕ → ℕ × ℕ
plan_speed_ramp_intervals ramp_ms max_steps =
    let shrunk = shrink_steps ramp_ms max_steps in
    let steps = if ltb shrunk 1 then 1 else shrunk in (steps, ramp_ms / steps)

unfoldable pub plan_accel_ramp : ℕ → ℕ → ℕ → ℕ → Option (ℕ × ℕ)
plan_accel_ramp current target ramp_ms max_steps =
    if ramp_ms == 0 || (max_steps == 0 || leb target current)
    then none
    else some (plan_speed_ramp_intervals ramp_ms max_steps)

unfoldable pub plan_brake_ramp : ℕ → ℕ → ℕ → ℕ → Option (ℕ × ℕ)
plan_brake_ramp current target ramp_ms max_steps =
    if ramp_ms == 0 || (max_steps == 0 || leb current target)
    then none
    else some (plan_speed_ramp_intervals ramp_ms max_steps)

unfoldable pub plan_speed_ramp_from_current : ℕ → ℕ → ℕ → ℕ → Option (ℕ × ℕ)
plan_speed_ramp_from_current current target ramp_ms max_steps =
    if ltb current target
    then plan_accel_ramp current target ramp_ms max_steps
    else plan_brake_ramp current target ramp_ms max_steps

-- PlanAccelRampStepDelta: the change per step, and whether the sign is -1.
unfoldable pub plan_accel_ramp_step_delta : ℕ → ℕ → ℕ → ℕ × Bool
plan_accel_ramp_step_delta current target steps =
    if ltb steps 1
    then (0, false)
    else if ltb target current
    then ((current - target) / steps, true)
    else ((target - current) / steps, false)

-- One step of the speed. Downwards it stays at or above the target, so that `-` is the source's.
abbrev pub next_speed : ℕ → Bool → ℕ → ℕ
next_speed per_step down speed = if down then speed - per_step else speed + per_step

-- The loop of AccelRampSpeeds, over the steps left; the last step is the target.
unfoldable pub ramp_loop : ℕ → Bool → ℕ → ℕ → ℕ → List ℕ
ramp_loop per_step down target zero speed = []
ramp_loop per_step down target (suc zero) speed = target % 256 ∷ []
ramp_loop per_step down target (suc (suc n)) speed =
    (next_speed per_step down speed % 256)
    ∷ ramp_loop per_step down target (suc n) (next_speed per_step down speed)

unfoldable pub accel_ramp_speeds : ℕ → ℕ → ℕ → List ℕ
accel_ramp_speeds current target steps =
    if ltb steps 1
    then target ∷ []
    else (let (per_step, down) = plan_accel_ramp_step_delta current target steps in
        ramp_loop per_step down target steps current)
