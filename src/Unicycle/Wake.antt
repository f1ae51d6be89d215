-- ===== src/Unicycle/Wake.antt =====
-- unicycle_ugv_controller.cpp, `nextControlDeadline` and `nextWake`: when the controller has to run next. The
-- end of a frame is computed as in the mecanum controller.
use xgc2_ugv_controller.Base.{
  Bool, true, false, not, ◌&&◌, ◌||◌, Option, none, some, pos, ◌+ℤ◌, if◌then◌else◌, and_then,
}
use xgc2_ugv_controller.Floating.{Double, lit, ◌⊕◌, ◌⊖◌, ◌⊘◌, ◌≺◌, ◌≼◌}
use xgc2_ugv_controller.StateMachine.{AdtMachine}
use xgc2_ugv_controller.Clock.Time.{time_nsec, time_to_sec}
use xgc2_ugv_controller.Clock.Gate.{next_due}
use xgc2_ugv_controller.Clock.Cadence.{WallControlCadence, next_sample}
use xgc2_ugv_controller.ResetClient.Executor.Report.{NextWake, at_domain, at_wall, next_wake}
use xgc2_ugv_controller.Mecanum.Controller.{Health}
use xgc2_ugv_controller.Mecanum.Wake.{deadline_ns}
use xgc2_ugv_controller.Unicycle.Types.{world_pva_ready}
use xgc2_ugv_controller.Unicycle.Controller.{
  Alternative, Controller, Custom1, ReferenceSource, SolveTicket, command_ready, health,
  is_flatness, reference_ready, reset_measurement,
}
use xgc2_ugv_controller.Unicycle.Publish.{idle_period}
use xgc2_ugv_controller.Unicycle.Operations.{status_due, status_period}

abbrev has_sample : {D : Type 0} → Option (WallControlCadence D) → Option D → Bool
has_sample (some p) (some t) = true
has_sample _ _ = false

module _ {D M C : Type 0} ⦃f : Double D⦄ where
  abbrev next_control_deadline : Health → Controller D M C → D
  next_control_deadline h c =
      f.of_ℤ (
        deadline_ns c.control_phase_ns (f.ceil_int (lit 1000000000 0 ⊘ c.config.control_rate_hz))
          (pos (time_nsec h.now)))
      ⊘ lit 1000000000 0

  -- The next sample of the tracking law.
  sample_wake :
      Health → Option (WallControlCadence D) → Option D → Controller D M C → NextWake D → NextWake D
  sample_wake h none sample c w = at_domain (next_control_deadline h c) w
  sample_wake h (some p) (some t) c w = at_wall t w
  sample_wake h (some p) none c w =
      if not p.external_domain then at_wall (next_sample p c.wall_time_sec false) w else w

  -- The next solve, or the end of the one in flight.
  solve_wake : Custom1 D → Option (SolveTicket D) → Controller D M C → NextWake D → NextWake D
  solve_wake s (some t) c w = at_domain (f.next_up t.deadline) w
  solve_wake s none c w =
      at_domain (next_due c.current_time_sec (lit 1 0 ⊘ c.config.nmpc_request_rate_hz) s.solve) w

  custom1_wake :
      ⦃source : ReferenceSource C⦄ → Health → Custom1 D → Controller D M C → NextWake D → NextWake D
  custom1_wake h s c w0 =
      let tracks = is_flatness c.config.tracking_strategy && world_pva_ready s.pva in
      let w1 = if tracks then sample_wake h c.wall_control s.sample_wall c w0 else w0 in
      let w2 =
        if not (is_flatness c.config.tracking_strategy) && reference_ready (Alternative.custom1 s) c
        then solve_wake s s.in_flight c w1
        else w1 in
      if command_ready c
      then at_domain (f.next_up (time_to_sec c.command.stamp ⊕ c.config.result_timeout)) (
          at_domain
            (next_due c.current_time_sec (lit 1 0 ⊘ c.config.command_publish_rate_hz) s.command) w2)
      else if not (tracks && has_sample c.wall_control s.sample_wall)
      then at_domain (next_due c.current_time_sec (lit 1 0 ⊘ c.config.idle_cmd_rate_hz) s.zero) w2
      else w2

  alternative_wake :
      ⦃source : ReferenceSource C⦄
      → Health
      → Alternative D
      → Controller D M C
      → NextWake D
      → NextWake D
  unfolding custom1_wake sample_wake solve_wake
  alternative_wake h (Alternative.self_check gate) c w =
      at_domain (next_due c.current_time_sec (idle_period c) gate) w
  alternative_wake h (Alternative.ready gate) c w =
      at_domain (next_due c.current_time_sec (idle_period c) gate) w
  alternative_wake h (Alternative.custom1 s) c w = custom1_wake h s c w
  alternative_wake h (Alternative.reset gate) c w =
      let rate =
        if h.ready || (c.config.idle_cmd_rate_hz ≼ lit 0 0)
        then c.config.command_publish_rate_hz
        else c.config.idle_cmd_rate_hz in
      at_wall (next_due c.wall_time_sec (lit 1 0 ⊘ rate) gate) w

  -- When a pose or a command of the future becomes usable, and when the pose is too old.
  freshness_wake : Controller D M C → NextWake D → NextWake D
  freshness_wake c w0 =
      let stamp = time_to_sec c.state.stamp in
      let commanded = time_to_sec c.command.stamp in
      let w1 =
        if c.state.received && (c.current_time_sec ≺ (stamp ⊖ lit 5 2))
        then at_domain (stamp ⊖ lit 5 2) w0
        else w0 in
      let w2 =
        if c.state.received && c.last_health_ready
        then at_domain (f.next_up (stamp ⊕ c.config.state_timeout)) w1
        else w1 in
      if c.command.valid && (c.current_time_sec ≺ (commanded ⊖ lit 5 2))
      then at_domain (commanded ⊖ lit 5 2) w2
      else w2

  -- The next status message.
  status_wake : Bool → Controller D M C → NextWake D → NextWake D
  status_wake due c w =
      let next = f.of_ℤ (c.last_status_ns +ℤ status_period c) ⊘ lit 1000000000 0 in
      if lit 0 0 ≺ c.current_time_sec
      then at_domain (if due then c.current_time_sec else next) w
      else w

  abbrev pub controller_wake :
      ⦃k : AdtMachine (Alternative D) D M⦄ ⦃source : ReferenceSource C⦄
      → Controller D M C
      → Option (NextWake D)
  unfolding freshness_wake alternative_wake status_wake
  controller_wake ⦃k = k⦄ c = and_then (health c) (λ h. and_then (status_due c) (λ due. some (
      alternative_wake h (k.state c.machine) c
        (freshness_wake c (status_wake due c (next_wake (reset_measurement h c) c.executor))))))
