-- ===== src/Mecanum/Handlers.antt =====
-- mecanum_ugv_controller.cpp, `MecanumUgvController::Spec`: what each alternative does with a tick, a
-- command, a change of health and an exit. Logs are left out.
pub mod Effects
use xgc2_ugv_controller.Base.{
  ℕ, ◌+◌, Bool, true, false, not, ◌&&◌, ◌||◌, String, List, [], ◌∷◌, ◌++◌, Option, none, some,
  if◌then◌else◌, ◌==◌, u32, u32_max,
}
use xgc2_ugv_controller.Floating.{Double, lit, ◌⊘◌, ◌≺◌}
use xgc2_ugv_controller.Clock.Gate.{PeriodicGate, due, new_gate}
use xgc2_ugv_controller.Clock.Cadence.{WallControlCadence, next_sample, take}
use xgc2_ugv_controller.ResetClient.Protocol.{Outcome, Pose}
use xgc2_ugv_controller.ResetClient.Tracker.{Command}
use xgc2_ugv_controller.ResetClient.Executor.{Executor, Run, active}
use xgc2_ugv_controller.ResetClient.Executor.Session.{abort, finish, install, prepare}
use xgc2_ugv_controller.ResetClient.Executor.Step.{step}
use xgc2_ugv_controller.Mecanum.Types.{
  AngleMath, ControlCommand, HolonomicTrackOutput, ControllerOutput, OperatorCommand,
  CommandOutcome, Code, compute_holonomic_track_command,
}
use xgc2_ugv_controller.Mecanum.Controller.{
  Controller, Alternative, Target, Change, Health, clear_command, set_command, emit,
  reset_measurement, reset_target_ready, world_reference_ready, entered,
}

abbrev pub applied : CommandOutcome
applied = record { code = Code.applied; message = "" }

abbrev pub no_credit : CommandOutcome
no_credit = record {
  code = Code.credit_unavailable;
  message = "Reset result credit or authority counter unavailable";
}

module _ {D : Type 0} where
  abbrev pub prepared : Option (Run D) → Change D × CommandOutcome
  prepared none = (Change.stay, no_credit)
  prepared (some run) = (Change.enter (Target.reset run), applied)

  -- A command is made at every tick, and given out when the gate is due.
  abbrev pub track_command : Health → HolonomicTrackOutput D → ControlCommand D
  track_command h o = record {
    stamp = h.now;
    linear_x = o.linear_x;
    linear_y = o.linear_y;
    angular_z = o.angular_z;
    valid = true;
  }

  abbrev pub reset_command : Health → Command D → ControlCommand D
  reset_command h o = record {
    stamp = h.now;
    linear_x = o.vx;
    linear_y = o.vy;
    angular_z = o.wz;
    valid = true;
  }

  -- The rules of Custom1 after Reset: a lost health before a Stop.
  abbrev pub custom1_rules :
      OperatorCommand → Option Bool → CommandOutcome → Change D × CommandOutcome
  custom1_rules op (some false) o = (Change.enter Target.self_check, o)
  custom1_rules OperatorCommand.stop _ o = (Change.enter Target.ready, applied)
  custom1_rules _ _ o = (Change.stay, o)

  unfoldable pub handle_health : Alternative D → Bool → Change D
  handle_health (Alternative.self_check _) true = Change.enter Target.ready
  handle_health (Alternative.self_check _) false = Change.stay
  handle_health (Alternative.ready _) false = Change.enter Target.self_check
  handle_health (Alternative.custom1 _ _) false = Change.enter Target.self_check
  handle_health (Alternative.reset _) false = Change.enter Target.self_check
  handle_health _ true = Change.stay

module _ {D M : Type 0} ⦃f : Double D⦄ where
  abbrev pub idle_period : Controller D M → D
  idle_period c =
      if lit 0 0 ≺ c.config.idle_cmd_rate_hz then lit 1 0 ⊘ c.config.idle_cmd_rate_hz else lit 0 0

  unfoldable pub publish_idle : PeriodicGate D → Controller D M → PeriodicGate D × Controller D M
  publish_idle gate c =
      let r = due c.current_time_sec (idle_period c) gate in
      (r.0, if r.1 then emit (ControllerOutput.publish_zero c.current_time_sec) c else c)

  abbrev pub emit_zero : Controller D M → Controller D M
  emit_zero c = emit (ControllerOutput.publish_zero c.current_time_sec) (clear_command c)

  unfoldable pub emit_reset_zero :
      Bool → PeriodicGate D → Controller D M → PeriodicGate D × Controller D M
  emit_reset_zero force gate c =
      let period =
        if lit 0 0 ≺ c.config.idle_cmd_rate_hz
        then lit 1 0 ⊘ c.config.idle_cmd_rate_hz
        else lit 1 0 ⊘ c.config.command_publish_rate_hz in
      let r = due c.wall_time_sec period gate in
      (r.0, if force || r.1 then emit_zero c else clear_command c)

  -- Custom1 without a reference of the world velocity.
  unfoldable pub tick_missing :
      Option (WallControlCadence D)
      → PeriodicGate D
      → Option D
      → Controller D M
      → Alternative D × Controller D M
  tick_missing none gate sample c = (Alternative.custom1 gate sample, emit_zero c)
  tick_missing (some w) gate sample c =
      let t = take w sample c.wall_time_sec in
      if t.1
      then (Alternative.custom1 gate (some (next_sample w c.wall_time_sec false)), emit_zero c)
      else (Alternative.custom1 gate t.0, c)

  unfoldable pub tick_reset :
      Health → PeriodicGate D → Controller D M → Alternative D × Controller D M × Bool
  tick_reset h gate c =
      let s = step (reset_measurement h c) c.executor in
      let stepped = record c { executor = s.0 } in
      let zero = emit_reset_zero false gate stepped in
      let commanded = set_command (reset_command h s.1.command) stepped in
      let r = due c.wall_time_sec (lit 1 0 ⊘ c.config.command_publish_rate_hz) gate in
      if s.1.ended
      then (Alternative.reset zero.0, zero.1, true)
      else if not h.ready
      then (Alternative.reset zero.0, zero.1, false)
      else (
        Alternative.reset r.0,
        if r.1
            then emit (ControllerOutput.publish_command c.current_time_sec) commanded
            else commanded,
        false,
      )

  unfoldable pub tick_custom1 :
      ⦃angle : AngleMath D⦄
      → Health
      → PeriodicGate D
      → Option D
      → Controller D M
      → Alternative D × Controller D M
  tick_custom1 h gate sample c =
      let missing = tick_missing c.wall_control gate sample c in
      let command =
        track_command h (compute_holonomic_track_command c.state c.world_reference c.config) in
      let r = due c.current_time_sec (lit 1 0 ⊘ c.config.command_publish_rate_hz) gate in
      if not (world_reference_ready c) then missing else (
        Alternative.custom1 r.0 none,
        if r.1
            then emit (ControllerOutput.publish_command c.current_time_sec) (set_command command c)
            else c,
      )

  -- The events of `Spec::handle`. A tick tells whether the Reset has ended.
  unfoldable pub tick :
      ⦃angle : AngleMath D⦄
      → Health
      → Alternative D
      → Controller D M
      → Alternative D × Controller D M × Bool
  tick h (Alternative.self_check gate) c =
      let r = publish_idle gate c in (Alternative.self_check r.0, r.1, false)
  tick h (Alternative.ready gate) c =
      let r = publish_idle gate c in (Alternative.ready r.0, r.1, false)
  tick h (Alternative.custom1 gate sample) c =
      let r = tick_custom1 h gate sample c in (r.0, r.1, false)
  tick h (Alternative.reset gate) c = tick_reset h gate c

  unfoldable pub prepare_reset : Health → Controller D M → Change D × CommandOutcome
  prepare_reset h c =
      let target : Pose D = record {
        x = c.reset_target.x;
        y = c.reset_target.y;
        yaw = c.reset_target.yaw;
      } in
      if c.reset_session_counter == u32_max
      then (Change.stay, no_credit)
      else prepared (
          prepare (u32 (c.reset_session_counter + 1)) target (reset_target_ready c)
            (reset_measurement h c) c.executor)

  unfoldable pub handle_operator :
      Health
      → Alternative D
      → OperatorCommand
      → Option Bool
      → CommandOutcome
      → Controller D M
      → Change D × CommandOutcome
  handle_operator h (Alternative.self_check _) op health o c = (Change.stay, o)
  handle_operator h (Alternative.ready _) OperatorCommand.reset health o c = prepare_reset h c
  handle_operator h (Alternative.ready _) OperatorCommand.custom1 health o c =
      (Change.enter Target.custom1, applied)
  handle_operator h (Alternative.ready _) _ health o c = (Change.stay, o)
  handle_operator h (Alternative.custom1 _ _) OperatorCommand.reset health o c = prepare_reset h c
  handle_operator h (Alternative.custom1 _ _) op health o c = custom1_rules op health o
  handle_operator h (Alternative.reset _) OperatorCommand.reset health o c = prepare_reset h c
  handle_operator h (Alternative.reset _) OperatorCommand.stop health o c =
      (Change.enter Target.ready, applied)
  handle_operator h (Alternative.reset _) _ health o c = (Change.stay, o)

  -- Reset is left: a session that is under way is aborted.
  unfoldable pub exit_reset :
      Health → PeriodicGate D → Controller D M → PeriodicGate D × Controller D M
  exit_reset h gate c =
      let aborted =
        abort (if h.ready then Outcome.stopped else Outcome.aborted_unhealthy)
          (if h.ready then "stop command" else "the vehicle state is lost or outside the fence")
          (reset_measurement h c) c.executor in
      emit_reset_zero true gate
        (record c { executor = finish (if active c.executor then aborted else c.executor) })

  unfoldable pub exit : Health → Alternative D → Controller D M → Alternative D × Controller D M
  exit h (Alternative.self_check gate) c = (Alternative.self_check gate, c)
  exit h (Alternative.ready gate) c = (Alternative.ready gate, c)
  exit h (Alternative.custom1 gate sample) c = (Alternative.custom1 gate sample, emit_zero c)
  exit h (Alternative.reset gate) c = let r = exit_reset h gate c in (Alternative.reset r.0, r.1)

  unfoldable pub enter_reset :
      Health → Run D → PeriodicGate D → Controller D M → PeriodicGate D × Controller D M
  enter_reset h run gate c =
      let cleared = clear_command c in
      emit_reset_zero true gate (record cleared {
        reset_session_counter = u32 (c.reset_session_counter + 1);
        reset_ever_started = true;
        executor = install run (reset_measurement h cleared) c.executor;
        last_reset_hold_reason =
            if reset_target_ready c
            then ""
            else "no target: reset_pose cache and reset_initial_* missing";
      })

  -- What is entered, and the controller with its command cleared.
  unfoldable pub enter : Health → Target D → Controller D M → Alternative D × Controller D M
  enter h (Target.reset run) c =
      let r = enter_reset h run new_gate c in (Alternative.reset r.0, r.1)
  enter h t c = (entered t, clear_command c)
