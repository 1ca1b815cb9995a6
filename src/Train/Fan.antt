-- ===== src/Train/Fan.antt =====
-- What Apply does with the members of a train.
use bigfred.Base.{
  ℕ, suc, ◌+◌, ◌≡◌, ◌<◌, ◌⊎◌, refl, ap, ◌∙◌, Bool, true, ◌&&◌, List, [], ◌∷◌, nat_key, string_key,
  if◌then◌else◌, inl, inr, arith, All, map,
}
use bigfred.Train.Ramp.{should_apply_accel_ramp, should_apply_brake_ramp, should_apply_start_delay}
use bigfred.Train.Scheduler.{
  TrainMemberSetSpeed, StartDelayJob, SpeedRampJob, MemberAck, SpeedCommand, Fanned, Treatment,
  ramped, delayed, written_now, brake_job, treat, collect, fan,
}

-- Whether all acks are positive.
abbrev pub all_acked : List MemberAck → Bool
all_acked [] = true
all_acked (k ∷ ks) = k.ok && all_acked ks

-- What a member is to do: its address, its new speed and its direction.
abbrev pub Aim : Type 0
Aim = ℕ × ℕ × Bool

-- How many members, delayed jobs, ramps or written commands have an aim that passes a test.
unfoldable pub count_aims {ℓ} : {A : Type ℓ} → (Aim → Bool) → (A → Aim) → List A → ℕ
count_aims p f [] = 0
count_aims p f (x ∷ xs) = let rest = count_aims p f xs in if p (f x) then suc rest else rest

abbrev pub member_aim : TrainMemberSetSpeed → Aim
member_aim m = (m.addr, m.speed, m.forward)

abbrev pub delay_aim : StartDelayJob → Aim
delay_aim job = (job.addr, job.target, job.forward)

abbrev pub ramp_aim : SpeedRampJob → Aim
ramp_aim job = (job.addr, job.target, job.forward)

abbrev pub command_aim : SpeedCommand → Aim
command_aim k = (k.addr, k.speed, k.forward)

abbrev pub aim : Treatment → Aim
aim (ramped job) = ramp_aim job
aim (delayed job) = delay_aim job
aim (written_now command) = command_aim command

-- Whether all commands that were written have succeeded.
abbrev pub all_written : (SpeedCommand → Bool) → List SpeedCommand → Bool
all_written apply [] = true
all_written apply (k ∷ ks) = apply k && all_written apply ks

treat-aim :
    (command_speed : ℕ) (at_start : Bool) (m : TrainMemberSetSpeed)
    → aim (treat command_speed at_start m) ≡ member_aim m
unfolding treat
treat-aim command_speed at_start m = ground arith

-- How many of all that Apply does have an aim that passes.
abbrev pub done : (Aim → Bool) → Fanned → ℕ
done p f =
    count_aims p delay_aim f.start_delays
    + count_aims p ramp_aim f.ramps
    + count_aims p command_aim f.written

collect-once :
    (p : Aim → Bool) (apply : SpeedCommand → Bool) (m : TrainMemberSetSpeed) (t : Treatment)
    (f : Fanned)
    → (done p (collect apply m t f) ≡ (if p (aim t) then 1 else 0) + done p f)
      × (map (λ (k : MemberAck). k.addr) (collect apply m t f).acks
          ≡ m.addr ∷ map (λ (k : MemberAck). k.addr) f.acks)
      × (f.all_ok ≡ all_acked f.acks
          → (collect apply m t f).all_ok ≡ all_acked (collect apply m t f).acks)
      × (f.all_ok ≡ all_written apply f.written
          → (collect apply m t f).all_ok ≡ all_written apply (collect apply m t f).written)
unfolding collect count_aims
collect-once p apply m (ramped job) f = (ground arith, refl, λ h. h, λ h. h)
collect-once p apply m (delayed job) f = (ground arith, refl, λ h. h, λ h. h)
collect-once p apply m (written_now command) f =
    (ground arith, refl, λ h. ap (λ b. apply command && b) h, λ h. ap (λ b. apply command && b) h)

-- Apply acknowledges every member once and in order. What it writes, delays and makes ramps of, taken
-- together, has the addresses, new speeds and directions of the members, each as often as the members
-- have it. It answers that all is well exactly when every ack is positive, and exactly when every
-- command that it has written has succeeded.
pub fan-treats_each_once :
    (p : Aim → Bool) (apply : SpeedCommand → Bool) (command_speed : ℕ) (at_start : Bool)
    (members : List TrainMemberSetSpeed)
    → let f = fan apply command_speed at_start members in
      (map (λ (k : MemberAck). k.addr) f.acks ≡ map (λ (m : TrainMemberSetSpeed). m.addr) members)
      × (done p f ≡ count_aims p member_aim members)
      × (f.all_ok ≡ all_acked f.acks)
      × (f.all_ok ≡ all_written apply f.written)
unfolding fan count_aims
fan-treats_each_once p apply command_speed at_start [] = (refl, refl, refl, refl)
fan-treats_each_once p apply command_speed at_start (m ∷ rest) =
    let f = fan apply command_speed at_start rest in
    let t = treat command_speed at_start m in
    let (acked, count, ok, wrote) = fan-treats_each_once p apply command_speed at_start rest in
    let (one, addrs, all, writes) = collect-once p apply m t f in
    let same : p (aim t) ≡ p (member_aim m) = ap p (treat-aim command_speed at_start m) in
    (addrs ∙ ap (λ l. m.addr ∷ l) acked, ground (arith, one, count, same), all ok, writes wrote)

-- A ramp that slows down.
abbrev pub Brakes : SpeedRampJob → Type 0
Brakes job = job.target < job.current

treat-stop :
    (at_start : Bool) (m : TrainMemberSetSpeed)
    → ((m.speed < m.current_speed) × (treat 0 at_start m ≡ ramped (brake_job m)))
      ⊎ (treat 0 at_start m
          ≡ written_now (record { addr = m.addr; speed = m.speed; forward = m.forward }))
unfolding treat should_apply_accel_ramp should_apply_brake_ramp should_apply_start_delay
treat-stop at_start m = ground arith

-- A stop of the train, a command of speed 0, is delayed for no member, and the only ramps are those
-- of members that slow down.
pub fan-stops_at_once :
    (apply : SpeedCommand → Bool) (at_start : Bool) (members : List TrainMemberSetSpeed)
    → let f = fan apply 0 at_start members in (f.start_delays ≡ []) × All Brakes f.ramps
unfolding fan collect
fan-stops_at_once apply at_start [] = (refl, tt)
fan-stops_at_once apply at_start (m ∷ rest) =
    let (none_delayed, brakes) = fan-stops_at_once apply at_start rest in
    elim (treat-stop at_start m) [
      | inl (l, e) ↦ rw (e, collect) (none_delayed, (l, brakes))
      | inr e ↦ rw (e, collect) (none_delayed, brakes)
    ]
