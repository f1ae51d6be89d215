-- ===== src/Unicycle/Tick.antt =====
-- unicycle_ugv_controller.cpp, `Spec::handle` of a tick: what each alternative does in a control period. Logs
-- are left out.
use xgc2_ugv_controller.Base.{
  ℕ, ◌+◌, ◌%◌, ◌^◌, Bool, true, false, not, ◌&&◌, Option, none, some, if◌then◌else◌,
}
use xgc2_ugv_controller.Floating.{Double, lit, ◌⊕◌, ◌⊖◌, ◌⊘◌, ◌≺◌, ◌≼◌}
use xgc2_ugv_controller.Clock.Gate.{PeriodicGate, due}
use xgc2_ugv_controller.Clock.Cadence.{WallControlCadence, next_sample, take}
use xgc2_ugv_controller.ResetClient.Tracker.{Command}
use xgc2_ugv_controller.ResetClient.Executor.Step.{step}
use xgc2_ugv_controller.Mecanum.Controller.{Health}
use xgc2_ugv_controller.Unicycle.Types.{ControlCommand, ControllerOutput, world_pva_ready}
use xgc2_ugv_controller.Unicycle.Flatness.{
  FlatnessCommandOutput, compute_flatness_command, lift_world_pva,
}
use xgc2_ugv_controller.Unicycle.Controller.{
  Controller, Alternative, Custom1, SolveTicket, ReferenceSource, set_command, emit,
  reset_measurement, command_ready, control_state, reference_ready, is_flatness,
}
use xgc2_ugv_controller.Unicycle.Publish.{publish_idle, emit_zero, emit_command, emit_reset_zero}

-- `uint64_t` arithmetic wraps.
abbrev pub u64 : ℕ → ℕ
u64 n = n % 2 ^ 64

module _ {D : Type 0} where
  abbrev pub flatness_command : Health → FlatnessCommandOutput D → ControlCommand D
  flatness_command h o = record {
    stamp = h.now;
    linear_speed = o.linear_speed;
    angular_speed = o.angular_speed;
    valid = true;
  }

  abbrev pub reset_command : Health → Command D → ControlCommand D
  reset_command h o = record {
    stamp = h.now;
    linear_speed = o.vx;
    angular_speed = o.wz;
    valid = true;
  }

module _ {D : Type 0} ⦃f : Double D⦄ where
  -- The sample of Custom1 that the wall clock admits, or none where it is not time.
  unfoldable pub sample_taken : Option (WallControlCadence D) → Custom1 D → D → Custom1 D × Bool
  sample_taken none s wall = (s, true)
  sample_taken (some w) s wall =
      let t = take w s.sample_wall wall in
      if not t.1
      then (record s { sample_wall = t.0 }, false)
      else if not w.external_domain
      then (record s { sample_wall = some (next_sample w wall false) }, true)
      else (record s { sample_wall = t.0 }, true)

  abbrev pub drops_sample : Option (WallControlCadence D) → Bool
  drops_sample none = false
  drops_sample (some w) = w.external_domain

  -- A solve whose deadline has passed is given up.
  abbrev pub unexpired : D → Option (SolveTicket D) → Option (SolveTicket D)
  unexpired now none = none
  unexpired now (some t) = if t.deadline ≺ now then none else some t

module _ {D M C : Type 0} ⦃f : Double D⦄ where
  -- A command of the tracking law.
  unfoldable pub tick_tracked :
      Health → Custom1 D → D → Controller D M C → Custom1 D × Controller D M C
  tick_tracked h s dt c =
      let timed = record s { last_tick = c.current_time_sec } in
      let output =
        compute_flatness_command (control_state c) (lift_world_pva s.pva c.current_time_sec)
          s.body_speed dt c.config in
      if not output.valid
      then emit_zero false timed c
      else emit_command (record timed { body_speed = output.linear_speed })
          (set_command (flatness_command h output) c)

  unfoldable pub tick_flatness :
      Health → Custom1 D → Controller D M C → Custom1 D × Controller D M C
  tick_flatness h s c =
      let dt = c.current_time_sec ⊖ s.last_tick in
      let t = sample_taken c.wall_control s c.wall_time_sec in
      let repeated = if drops_sample c.wall_control then record s { sample_wall = none } else s in
      if not (world_pva_ready s.pva)
      then emit_zero false (record s { sample_wall = none }) c
      else if (lit 0 0 ≼ dt) && (dt ≼ c.config.velocity_dt_min)
      then emit_command repeated c
      else if not t.1
      then (if command_ready c then emit_command t.0 c else (t.0, c))
      else tick_tracked h t.0 dt c

  -- A solve is requested where none is in flight and one is due.
  unfoldable pub request_solve :
      Option (SolveTicket D) → Custom1 D → Controller D M C → Custom1 D × Controller D M C
  request_solve (some t) s c = (record s { in_flight = some t }, c)
  request_solve none s c =
      let now = c.current_time_sec in
      let r = due now (lit 1 0 ⊘ c.config.nmpc_request_rate_hz) s.solve in
      let next = u64 (c.request_sequence + 1) in
      let idle = record s { in_flight = none; solve = r.0 } in
      if r.1
      then (
        record idle {
          in_flight = some (record { sequence = next; deadline = now ⊕ c.config.solve_timeout });
        },
        emit (ControllerOutput.solve_nmpc next now) (record c { request_sequence = next }),
      )
      else (idle, c)

  unfoldable pub tick_nmpc :
      ⦃source : ReferenceSource C⦄ → Custom1 D → Controller D M C → Custom1 D × Controller D M C
  tick_nmpc s c =
      let ticket = unexpired c.current_time_sec s.in_flight in
      let r = request_solve ticket s c in
      if not (reference_ready (Alternative.custom1 s) c)
      then emit_zero false (record s { in_flight = ticket }) c
      else emit_command r.0 r.1

  unfoldable pub tick_reset :
      Health → PeriodicGate D → Controller D M C → Alternative D × Controller D M C × Bool
  tick_reset h gate c =
      let s = step (reset_measurement h c) c.executor in
      let stepped = record c { executor = s.0 } in
      let zero = emit_reset_zero false gate stepped in
      let commanded = set_command (reset_command h s.1.command) stepped in
      let r = due c.wall_time_sec (lit 1 0 ⊘ c.config.command_publish_rate_hz) gate in
      if s.1.ended
      then (Alternative.reset zero.0, zero.1, true)
      else if not h.ready
      then (Alternative.reset zero.0, zero.1, false)
      else (
        Alternative.reset r.0,
        if r.1
            then emit (ControllerOutput.publish_command c.current_time_sec) commanded
            else commanded,
        false,
      )

  -- The events of `Spec::handle`. A tick tells whether the Reset has ended.
  unfoldable pub tick :
      ⦃source : ReferenceSource C⦄
      → Health
      → Alternative D
      → Controller D M C
      → Alternative D × Controller D M C × Bool
  tick h (Alternative.self_check gate) c =
      let r = publish_idle gate c in (Alternative.self_check r.0, r.1, false)
  tick h (Alternative.ready gate) c =
      let r = publish_idle gate c in (Alternative.ready r.0, r.1, false)
  tick h (Alternative.custom1 s) c =
      let r =
        if is_flatness c.config.tracking_strategy then tick_flatness h s c else tick_nmpc s c in
      (Alternative.custom1 r.0, r.1, false)
  tick h (Alternative.reset gate) c = tick_reset h gate c
