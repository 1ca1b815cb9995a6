-- ===== src/Train/Tests.antt =====
-- Commands to trains, and the theorems at concrete ones.
use bigfred.Base.{
  ℤ, ◌≡◌, ◌≤◌, ◌<◌, ◌⊎◌, refl, Bool, true, false, List, [], ◌∷◌, length, map, All, lookup, insert,
  erase, ◌==◌, ◌&&◌, nat_key, arith,
}
use bigfred.Train.Ramp
use bigfred.Train.Scheduler
use bigfred.Train.Scheduler.{TrainMemberSetSpeed, MemberAck, SpeedCommand}
use bigfred.Train.Steps.{Climbs, Falls, plan_speed_ramp_intervals-fits, accel_ramp_speeds-reaches}
use bigfred.Train.Fan.{
  Aim, all_acked, all_written, count_aims, member_aim, done, Brakes, fan-treats_each_once,
  fan-stops_at_once,
}
use bigfred.Train.Jobs
use bigfred.Train.Jobs.{SchedulerCall}

-- Everything that a command goes through.
program : Unit {0}
unfolding lookup insert erase Ramp.is_start_delay_previous_speed Ramp.should_apply_accel_ramp
    Ramp.should_apply_brake_ramp Ramp.should_apply_start_delay Ramp.shrink_steps
    Ramp.plan_speed_ramp_intervals Ramp.plan_accel_ramp Ramp.plan_brake_ramp
    Ramp.plan_speed_ramp_from_current Ramp.plan_accel_ramp_step_delta Ramp.ramp_loop
    Ramp.accel_ramp_speeds Scheduler.treat Scheduler.collect Scheduler.fan Scheduler.cancel_train
    Scheduler.cancel_all Scheduler.cancel_context Scheduler.cancel_range Scheduler.schedule_delayed
    Scheduler.apply_train Jobs.live Jobs.scheduler_call Jobs.scheduler_run count_aims
program = tt

-- A member that runs at 40 and brakes over two seconds, and one that stands and starts late.
abbrev members : List TrainMemberSetSpeed
members =
    record {
      addr = 3;
      current_speed = 40;
      speed = 0;
      forward = true;
      start_delay_ms = ℤ.pos 0;
      accel_ramp_ms = 0;
      accel_ramp_max_steps = 0;
      brake_ramp_ms = 2000;
      brake_ramp_max_steps = 10;
    }
    ∷ record {
      addr = 4;
      current_speed = 0;
      speed = 0;
      forward = false;
      start_delay_ms = ℤ.pos 300;
      accel_ramp_ms = 0;
      accel_ramp_max_steps = 0;
      brake_ramp_ms = 0;
      brake_ramp_max_steps = 0;
    }
    ∷ []

abbrev succeeds : SpeedCommand → Bool
succeeds command = true

four_steps : Ramp.plan_speed_ramp_intervals 2000 10 ≡ (4, 500)
unfolding program
four_steps = refl

slows_down : Ramp.accel_ramp_speeds 40 0 4 ≡ 30 ∷ 20 ∷ 10 ∷ 0 ∷ []
unfolding program
slows_down = refl

plan_speed_ramp_intervals-fits_example :
    let (steps, interval_ms) = Ramp.plan_speed_ramp_intervals 2000 10 in
    (0 < steps) × (steps ≤ 10) × ((steps ≡ 1) ⊎ (Ramp.min_speed_ramp_step_ms ≤ interval_ms))
plan_speed_ramp_intervals-fits_example = plan_speed_ramp_intervals-fits 2000 10 (omega arith)

accel_ramp_speeds-reaches_example :
    let speeds = Ramp.accel_ramp_speeds 40 0 4 in
    (length speeds ≡ 4) × ((((◌≤◌ 40 0)) × Climbs 40 0 speeds) ⊎ ((◌<◌ 0 40) × Falls 40 0 speeds))
accel_ramp_speeds-reaches_example = accel_ramp_speeds-reaches 40 0 3 (omega arith) (omega arith)

abbrev stops_3 : Aim → Bool
stops_3 (addr, speed, forward) = addr == 3 && speed == 0

-- A negative start delay is not 0: from standstill there is neither a ramp nor a delay.
negative_delay : Ramp.should_apply_accel_ramp 40 0 40 (ℤ.negsuc 0) 2000 ≡ false
unfolding program
negative_delay = refl

fan-treats_each_once_example :
    let f = Scheduler.fan succeeds 0 true members in
    (map (λ (k : MemberAck). k.addr) f.acks ≡ map (λ (m : TrainMemberSetSpeed). m.addr) members)
    × (done stops_3 f ≡ count_aims stops_3 member_aim members)
    × (f.all_ok ≡ all_acked f.acks)
    × (f.all_ok ≡ all_written succeeds f.written)
fan-treats_each_once_example = fan-treats_each_once stops_3 succeeds 0 true members

fan-stops_at_once_example :
    let f = Scheduler.fan succeeds 0 true members in (f.start_delays ≡ []) × All Brakes f.ramps
fan-stops_at_once_example = fan-stops_at_once succeeds true members

-- Train a brakes, and then gets the same command again; train b brakes in between.
abbrev commands : List SchedulerCall
commands =
    SchedulerCall.apply_call succeeds "a" 0 true members
    ∷ SchedulerCall.apply_call succeeds "b" 0 true members
    ∷ []

abbrev busy : Scheduler.TrainSpeedScheduler
busy = Jobs.scheduler_run commands Scheduler.new_scheduler

one_runs :
    length (Jobs.live "a" (Scheduler.apply_train succeeds "a" 0 true members busy).0.started) ≡ 1
unfolding program
one_runs = refl

-- Two Apply calls for a train whose steps interleave: both have cancelled before either has scheduled.
-- The first one's jobs cannot be cancelled any more.
abbrev jobs_of : Scheduler.TrainSpeedScheduler → Scheduler.TrainSpeedScheduler
jobs_of s =
    let f = Scheduler.fan succeeds 0 true members in
    Scheduler.schedule_delayed "a" f.start_delays f.ramps s

interleaved :
    length (
      Jobs.live "a"
        (Scheduler.cancel_train "a" (jobs_of (jobs_of Scheduler.new_scheduler))).started)
    ≡ 1
unfolding program
interleaved = refl
