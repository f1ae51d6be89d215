-- ===== src/Mecanum/Wake.antt =====
-- mecanum_ugv_controller.cpp, `nextControlDeadline` and `nextWake`: when the controller has to run next.
use xgc2_ugv_controller.Base.{
  ℕ, ◌+◌, ◌≤◌, ◌<◌, false, not, ◌&&◌, ◌||◌, Option, none, some, ℤ, pos, pos_part, neg_part, ◌+ℤ◌,
  if◌then◌else◌, and_then, arith, +ℤ_parts,
}
use xgc2_ugv_controller.Floating.{Double, lit, ◌⊕◌, ◌⊖◌, ◌⊗◌, ◌⊘◌, ◌≺◌, ◌≼◌}
use xgc2_ugv_controller.StateMachine.{AdtMachine}
use xgc2_ugv_controller.Clock.Time.{time_to_sec}
use xgc2_ugv_controller.Clock.Gate.{next_due}
use xgc2_ugv_controller.Clock.Cadence.{WallControlCadence, frame_start, next_sample}
use xgc2_ugv_controller.Clock.Cadence.Laws.{frame_start_lem}
use xgc2_ugv_controller.ResetClient.Executor.Report.{NextWake, at_domain, at_wall, next_wake}
use xgc2_ugv_controller.Mecanum.Controller.{
  Controller, Alternative, Health, health, reset_measurement, world_reference_ready,
}
use xgc2_ugv_controller.Mecanum.Handlers.{idle_period}

abbrev or_now : Option ℤ → ℤ → ℤ
or_now none now = now
or_now (some p) _ = p

-- `nextControlDeadline` in nanoseconds: the end of the frame.
unfoldable pub deadline_ns : Option ℤ → ℤ → ℤ → ℤ
deadline_ns phase period now = frame_start (or_now phase now) period now +ℤ period

-- With a positive period, the next control deadline is later than now, and at most a period later.
pub deadline_ns_lem :
    (phase : Option ℤ) (now : ℤ) (p : ℕ)
    → 0 < p
    → let next = deadline_ns phase (pos p) now in
      (pos_part now + neg_part next < pos_part next + neg_part now)
      × (pos_part next + neg_part now ≤ pos_part now + neg_part next + p)
unfolding deadline_ns
deadline_ns_lem phase now p h =
    let bounds = frame_start_lem (or_now phase now) now p h in
    let start = frame_start (or_now phase now) (pos p) now in
    (omega (arith, bounds, +ℤ_parts start (pos p)), omega (arith, bounds, +ℤ_parts start (pos p)))

module _ {D M : Type 0} ⦃f : Double D⦄ where
  abbrev next_control_deadline : Controller D M → D
  next_control_deadline c =
      f.of_ℤ (
        deadline_ns c.control_phase_ns (f.ceil_int (lit 1000000000 0 ⊘ c.config.control_rate_hz))
          (f.llround (c.wall_time_sec ⊗ lit 1000000000 0)))
      ⊘ lit 1000000000 0

  -- When a missing reference is looked at next.
  abbrev sample_deadline : Option D → Option (WallControlCadence D) → Controller D M → D
  sample_deadline (some t) w c = t
  sample_deadline none (some w) c = next_sample w c.wall_time_sec false
  sample_deadline none none c = next_control_deadline c

  -- The wakes of an alternative.
  alternative_wake : Health → Alternative D → Controller D M → NextWake D → NextWake D
  alternative_wake h (Alternative.self_check gate) c w =
      at_domain (next_due c.current_time_sec (idle_period c) gate) w
  alternative_wake h (Alternative.ready gate) c w =
      at_domain (next_due c.current_time_sec (idle_period c) gate) w
  alternative_wake h (Alternative.custom1 gate sample) c w =
      if not (world_reference_ready c)
      then at_wall (sample_deadline sample c.wall_control c) w
      else at_domain (next_due c.current_time_sec (lit 1 0 ⊘ c.config.command_publish_rate_hz) gate)
          w
  alternative_wake h (Alternative.reset gate) c w =
      let rate =
        if h.ready || (c.config.idle_cmd_rate_hz ≼ lit 0 0)
        then c.config.command_publish_rate_hz
        else c.config.idle_cmd_rate_hz in
      at_wall (next_due c.wall_time_sec (lit 1 0 ⊘ rate) gate) w

  -- When the pose becomes usable, and when it is too old.
  freshness_wake : Controller D M → NextWake D → NextWake D
  freshness_wake c w0 =
      let stamp = time_to_sec c.state.stamp in
      let w1 =
        if c.state.received && (c.current_time_sec ≺ (stamp ⊖ lit 5 2))
        then at_domain (stamp ⊖ lit 5 2) w0
        else w0 in
      if c.state.received && c.last_health_ready
      then at_domain (f.next_up (stamp ⊕ c.config.state_timeout)) w1
      else w1

  abbrev pub controller_wake :
      ⦃k : AdtMachine (Alternative D) D M⦄ → Controller D M → Option (NextWake D)
  unfolding freshness_wake alternative_wake
  controller_wake ⦃k = k⦄ c = and_then (health c) (λ h.
      let status =
        at_domain
          (next_due c.current_time_sec (lit 1 0 ⊘ c.config.status_publish_rate_hz) c.status_gate)
          (next_wake (reset_measurement h c) c.executor) in
      some (alternative_wake h (k.state c.machine) c (freshness_wake c status)))
