-- ===== src/Unicycle/Publish.antt =====
-- unicycle_ugv_controller.cpp, `publishIdle`, `emitZero`, `emitCommand` and `emitResetZero`: what the handlers
-- publish.
pub mod Effects
use xgc2_ugv_controller.Base.{
  ℕ, ◌+◌, ◌%◌, ◌^◌, Bool, true, false, not, ◌&&◌, ◌||◌, Option, none, some, if◌then◌else◌, ◌==◌,
  u32, u32_max,
}
use xgc2_ugv_controller.Floating.{Double, lit, ◌⊕◌, ◌⊖◌, ◌⊘◌, ◌≺◌, ◌≼◌}
use xgc2_ugv_controller.Clock.Time.{time_to_sec}
use xgc2_ugv_controller.Clock.Gate.{PeriodicGate, due, new_gate}
use xgc2_ugv_controller.Clock.Cadence.{WallControlCadence, next_sample, take}
use xgc2_ugv_controller.ResetClient.Protocol.{Outcome, Pose}
use xgc2_ugv_controller.ResetClient.Tracker.{Command}
use xgc2_ugv_controller.ResetClient.Executor.{Run, active}
use xgc2_ugv_controller.ResetClient.Executor.Session.{abort, finish, install, prepare}
use xgc2_ugv_controller.ResetClient.Executor.Step.{step}
use xgc2_ugv_controller.Mecanum.Types.{OperatorCommand, CommandOutcome}
use xgc2_ugv_controller.Mecanum.Controller.{Health}
use xgc2_ugv_controller.Mecanum.Handlers.{applied, no_credit}
use xgc2_ugv_controller.Unicycle.Types.{
  ControlCommand, ControllerOutput, NmpcCompletion, WorldPvaReference, no_pva, world_pva_ready,
}
use xgc2_ugv_controller.Unicycle.Flatness.{
  FlatnessCommandOutput, compute_flatness_command, lift_world_pva,
}
use xgc2_ugv_controller.Unicycle.Controller.{
  Controller, Alternative, Custom1, SolveTicket, Target, Change, ReferenceSource, clear_command,
  set_command, emit, reset_measurement, reset_target_ready, command_ready, control_state,
  reference_ready, is_flatness, entered,
}

module _ {D M C : Type 0} ⦃f : Double D⦄ where
  abbrev pub idle_period : Controller D M C → D
  idle_period c =
      if lit 0 0 ≺ c.config.idle_cmd_rate_hz then lit 1 0 ⊘ c.config.idle_cmd_rate_hz else lit 0 0

  unfoldable pub publish_idle :
      PeriodicGate D → Controller D M C → PeriodicGate D × Controller D M C
  publish_idle gate c =
      let r = due c.current_time_sec (idle_period c) gate in
      (r.0, if r.1 then emit (ControllerOutput.publish_zero c.current_time_sec) c else c)

  unfoldable pub emit_zero : Bool → Custom1 D → Controller D M C → Custom1 D × Controller D M C
  emit_zero force s c =
      let gate = if force || c.command.valid then new_gate else s.zero in
      let r = due c.current_time_sec (lit 1 0 ⊘ c.config.idle_cmd_rate_hz) gate in
      let cleared = clear_command c in
      (
        record s { body_speed = lit 0 0; zero = r.0 },
        if r.1 then emit (ControllerOutput.publish_zero c.current_time_sec) cleared else cleared,
      )

  unfoldable pub emit_command : Custom1 D → Controller D M C → Custom1 D × Controller D M C
  emit_command s c =
      let r = due c.current_time_sec (lit 1 0 ⊘ c.config.command_publish_rate_hz) s.command in
      if not (command_ready c) then emit_zero false s c else (
        record s { command = r.0 },
        if r.1 then emit (ControllerOutput.publish_command c.current_time_sec) c else c,
      )

  unfoldable pub emit_reset_zero :
      Bool → PeriodicGate D → Controller D M C → PeriodicGate D × Controller D M C
  emit_reset_zero force gate c =
      let period =
        if lit 0 0 ≺ c.config.idle_cmd_rate_hz
        then lit 1 0 ⊘ c.config.idle_cmd_rate_hz
        else lit 1 0 ⊘ c.config.command_publish_rate_hz in
      let r = due c.wall_time_sec period gate in
      let cleared = clear_command c in
      (
        r.0,
        if force || r.1
            then emit (ControllerOutput.publish_zero c.current_time_sec) cleared
            else cleared,
      )
