-- ===== src/Train/Scheduler.antt =====
-- train_speed_scheduler.go: Apply, which writes, delays or ramps the speed of each member.
use bigfred.Base.{
  ℕ, ℤ, suc, Bool, true, false, ◌&&◌, String, List, [], ◌∷◌, Map, insert, erase, lookup, maybe,
  length, ◌==◌, nat_key, string_key, if◌then◌else◌, is_some,
}
use bigfred.Train.Ramp.{
  should_apply_accel_ramp, should_apply_brake_ramp, should_apply_start_delay, plan_accel_ramp,
  plan_brake_ramp,
}

pub record TrainMemberSetSpeed : Type 0 where
  pub addr : ℕ
  pub current_speed : ℕ
  pub speed : ℕ
  pub forward : Bool
  pub start_delay_ms : ℤ
  pub accel_ramp_ms : ℕ
  pub accel_ramp_max_steps : ℕ
  pub brake_ramp_ms : ℕ
  pub brake_ramp_max_steps : ℕ

pub record StartDelayJob : Type 0 where
  pub addr : ℕ
  pub target : ℕ
  pub forward : Bool
  pub delay_ms : ℤ

pub record SpeedRampJob : Type 0 where
  pub addr : ℕ
  pub current : ℕ
  pub target : ℕ
  pub forward : Bool
  pub ramp_ms : ℕ
  pub max_steps : ℕ

pub record MemberAck : Type 0 where
  pub addr : ℕ
  pub ok : Bool

-- A speed command on the command station.
pub record SpeedCommand : Type 0 where
  pub addr : ℕ
  pub speed : ℕ
  pub forward : Bool

-- What Apply collects; the commands written, the ramps, the delays and the acks in order.
pub record Fanned : Type 0 where
  pub acks : List MemberAck
  pub start_delays : List StartDelayJob
  pub ramps : List SpeedRampJob
  pub written : List SpeedCommand
  pub all_ok : Bool

-- What becomes of one member.
pub data Treatment : Type 0 where
  ramped : SpeedRampJob → Treatment
  delayed : StartDelayJob → Treatment
  written_now : SpeedCommand → Treatment

abbrev pub accel_job : TrainMemberSetSpeed → SpeedRampJob
accel_job m = record {
  addr = m.addr;
  current = m.current_speed;
  target = m.speed;
  forward = m.forward;
  ramp_ms = m.accel_ramp_ms;
  max_steps = m.accel_ramp_max_steps;
}

abbrev pub brake_job : TrainMemberSetSpeed → SpeedRampJob
brake_job m = record {
  addr = m.addr;
  current = m.current_speed;
  target = m.speed;
  forward = m.forward;
  ramp_ms = m.brake_ramp_ms;
  max_steps = m.brake_ramp_max_steps;
}

abbrev pub delay_job : TrainMemberSetSpeed → StartDelayJob
delay_job m = record {
  addr = m.addr;
  target = m.speed;
  forward = m.forward;
  delay_ms = m.start_delay_ms;
}

-- The tests of Apply's loop, in order.
unfoldable pub treat : ℕ → Bool → TrainMemberSetSpeed → Treatment
treat command_speed at_start m =
    if should_apply_accel_ramp command_speed m.current_speed m.speed m.start_delay_ms
        m.accel_ramp_ms
      && is_some (plan_accel_ramp m.current_speed m.speed m.accel_ramp_ms m.accel_ramp_max_steps)
    then ramped (accel_job m)
    else if should_apply_brake_ramp m.current_speed m.speed m.brake_ramp_ms
        && is_some (plan_brake_ramp m.current_speed m.speed m.brake_ramp_ms m.brake_ramp_max_steps)
    then ramped (brake_job m)
    else if should_apply_start_delay command_speed at_start m.current_speed m.speed m.start_delay_ms
        m.accel_ramp_ms
    then delayed (delay_job m)
    else written_now (record { addr = m.addr; speed = m.speed; forward = m.forward })

-- One round of Apply's loop, before what the rest of the loop collects. `apply` is the write of a
-- speed, and answers whether it succeeded.
unfoldable pub collect : (SpeedCommand → Bool) → TrainMemberSetSpeed → Treatment → Fanned → Fanned
collect apply m (ramped job) f = record f {
  acks = record { addr = m.addr; ok = true } ∷ f.acks;
  ramps = job ∷ f.ramps;
}
collect apply m (delayed job) f = record f {
  acks = record { addr = m.addr; ok = true } ∷ f.acks;
  start_delays = job ∷ f.start_delays;
}
collect apply m (written_now command) f = record f {
  acks = record { addr = m.addr; ok = apply command } ∷ f.acks;
  written = command ∷ f.written;
  all_ok = apply command && f.all_ok;
}

abbrev pub nothing_fanned : Fanned
nothing_fanned = record { acks = []; start_delays = []; ramps = []; written = []; all_ok = true }

-- Apply's loop over the members.
unfoldable pub fan : (SpeedCommand → Bool) → ℕ → Bool → List TrainMemberSetSpeed → Fanned
fan apply command_speed at_start [] = nothing_fanned
fan apply command_speed at_start (m ∷ rest) =
    collect apply m (treat command_speed at_start m) (fan apply command_speed at_start rest)

-- What one Apply starts in the background.
pub record Jobs : Type 0 where
  pub start_delays : List StartDelayJob
  pub ramps : List SpeedRampJob

-- The goroutines of one Apply, which share a context. A context is named by the train and a number that
-- no other has, and `cancelled` is whether its cancel function was called. A job stops by itself too;
-- that is left out.
pub record Background : Type 0 where
  pub train : String
  pub context : ℕ
  pub jobs : Jobs
  pub cancelled : Bool

-- TrainSpeedScheduler: `pending` has the context that the cancel function of a train cancels,
-- `started` all that was ever started, the latest first, and `next` the number of the next context.
pub record TrainSpeedScheduler : Type 0 where
  pub pending : Map String ℕ
  pub started : List Background
  pub next : ℕ

abbrev pub new_scheduler : TrainSpeedScheduler
new_scheduler = record { pending = []; started = []; next = 0 }

-- A call of a cancel function.
unfoldable pub cancel_context : String → ℕ → List Background → List Background
cancel_context train context [] = []
cancel_context train context (b ∷ bs) =
    (if b.train == train && b.context == context
      then record { train = b.train; context = b.context; jobs = b.jobs; cancelled = true }
      else b)
    ∷ cancel_context train context bs

unfoldable pub cancel_train : String → TrainSpeedScheduler → TrainSpeedScheduler
cancel_train train s =
    maybe s
      (λ context. record s {
        started = cancel_context train context s.started;
        pending = erase train s.pending;
      })
      (lookup train s.pending)

-- The loop of CancelAll: its body is that of CancelTrain, for a train of the range.
unfoldable pub cancel_range : Map String ℕ → TrainSpeedScheduler → TrainSpeedScheduler
cancel_range [] s = s
cancel_range ((train, _) ∷ rest) s = cancel_range rest (cancel_train train s)

unfoldable pub cancel_all : TrainSpeedScheduler → TrainSpeedScheduler
cancel_all s = cancel_range s.pending s

-- The new cancel function takes the place of one that is still there, without calling it.
unfoldable pub schedule_delayed :
    String → List StartDelayJob → List SpeedRampJob → TrainSpeedScheduler → TrainSpeedScheduler
schedule_delayed train start_delays ramps s =
    if length start_delays == 0 && length ramps == 0 then s else record {
      pending = insert train s.next s.pending;
      started =
          record {
            train = train;
            context = s.next;
            jobs = record { start_delays = start_delays; ramps = ramps };
            cancelled = false;
          }
          ∷ s.started;
      next = suc s.next;
    }

-- Apply: the scheduler afterwards, and what it has collected. The mutex is free between CancelTrain
-- and scheduleDelayed; here no other call for the train comes in between.
unfoldable pub apply_train :
    (SpeedCommand → Bool)
    → String
    → ℕ
    → Bool
    → List TrainMemberSetSpeed
    → TrainSpeedScheduler
    → TrainSpeedScheduler × Fanned
apply_train apply train command_speed at_start members s =
    let f = fan apply command_speed at_start members in
    (schedule_delayed train f.start_delays f.ramps (cancel_train train s), f)
