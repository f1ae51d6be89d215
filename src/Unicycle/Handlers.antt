-- ===== src/Unicycle/Handlers.antt =====
-- unicycle_ugv_controller.cpp, `UnicycleUgvController::Spec`: what each alternative does with a command, a
-- change of health, a reference, an exit and a completed solve, and what is entered. Logs are left out.
pub mod Completion
use xgc2_ugv_controller.Base.{
  ℕ, ◌+◌, ◌%◌, ◌^◌, Bool, true, false, not, ◌&&◌, ◌||◌, Option, none, some, if◌then◌else◌, ◌==◌,
  u32, u32_max,
}
use xgc2_ugv_controller.Floating.{Double, lit, ◌⊕◌, ◌⊖◌, ◌⊘◌, ◌≺◌, ◌≼◌}
use xgc2_ugv_controller.Clock.Time.{time_to_sec}
use xgc2_ugv_controller.Clock.Gate.{PeriodicGate, due, new_gate}
use xgc2_ugv_controller.Clock.Cadence.{WallControlCadence, next_sample, take}
use xgc2_ugv_controller.ResetClient.Protocol.{Outcome, Pose}
use xgc2_ugv_controller.ResetClient.Tracker.{Command}
use xgc2_ugv_controller.ResetClient.Executor.{Run, active}
use xgc2_ugv_controller.ResetClient.Executor.Session.{abort, finish, install, prepare}
use xgc2_ugv_controller.ResetClient.Executor.Step.{step}
use xgc2_ugv_controller.Mecanum.Types.{OperatorCommand, CommandOutcome}
use xgc2_ugv_controller.Mecanum.Controller.{Health}
use xgc2_ugv_controller.Mecanum.Handlers.{applied, no_credit}
use xgc2_ugv_controller.Unicycle.Types.{
  ControlCommand, ControllerOutput, NmpcCompletion, WorldPvaReference, no_pva, world_pva_ready,
}
use xgc2_ugv_controller.Unicycle.Flatness.{
  FlatnessCommandOutput, compute_flatness_command, lift_world_pva,
}
use xgc2_ugv_controller.Unicycle.Controller.{
  Controller, Alternative, Custom1, SolveTicket, Target, Change, ReferenceSource, clear_command,
  set_command, emit, reset_measurement, reset_target_ready, command_ready, control_state,
  reference_ready, is_flatness, entered,
}
use xgc2_ugv_controller.Unicycle.Publish.{
  idle_period, publish_idle, emit_zero, emit_command, emit_reset_zero,
}
use xgc2_ugv_controller.Unicycle.Tick.{
  u64, flatness_command, reset_command, sample_taken, drops_sample, unexpired, tick_tracked,
  tick_flatness, request_solve, tick_nmpc, tick_reset, tick,
}

module _ {D : Type 0} where
  abbrev pub prepared : Option (Run D) → Change D × CommandOutcome
  prepared none = (Change.stay, no_credit)
  prepared (some run) = (Change.enter (Target.reset run), applied)

  -- The rules of Custom1 after Reset: a lost health before a Stop.
  abbrev pub custom1_rules :
      OperatorCommand → Option Bool → CommandOutcome → Change D × CommandOutcome
  custom1_rules op (some false) o = (Change.enter Target.self_check, o)
  custom1_rules OperatorCommand.stop _ o = (Change.enter Target.ready, applied)
  custom1_rules _ _ o = (Change.stay, o)

  unfoldable pub handle_health : Alternative D → Bool → Change D
  handle_health (Alternative.self_check _) true = Change.enter Target.ready
  handle_health (Alternative.self_check _) false = Change.stay
  handle_health (Alternative.ready _) false = Change.enter Target.self_check
  handle_health (Alternative.custom1 _) false = Change.enter Target.self_check
  handle_health (Alternative.reset _) false = Change.enter Target.self_check
  handle_health _ true = Change.stay

module _ {D M C : Type 0} ⦃f : Double D⦄ where
  unfoldable pub prepare_reset : Health → Controller D M C → Change D × CommandOutcome
  prepare_reset h c =
      let target : Pose D = record {
        x = c.reset_target.x;
        y = c.reset_target.y;
        yaw = c.reset_target.yaw;
      } in
      if c.reset_session_counter == u32_max
      then (Change.stay, no_credit)
      else prepared (
          prepare (u32 (c.reset_session_counter + 1)) target (reset_target_ready c)
            (reset_measurement h c) c.executor)

  unfoldable pub handle_operator :
      Health
      → Alternative D
      → OperatorCommand
      → Option Bool
      → CommandOutcome
      → Controller D M C
      → Change D × CommandOutcome
  handle_operator h (Alternative.self_check _) op health o c = (Change.stay, o)
  handle_operator h (Alternative.ready _) OperatorCommand.reset health o c = prepare_reset h c
  handle_operator h (Alternative.ready _) OperatorCommand.custom1 health o c =
      (Change.enter (Target.custom1 (control_state c).speed c.current_time_sec), applied)
  handle_operator h (Alternative.ready _) _ health o c = (Change.stay, o)
  handle_operator h (Alternative.custom1 _) OperatorCommand.reset health o c = prepare_reset h c
  handle_operator h (Alternative.custom1 _) op health o c = custom1_rules op health o
  handle_operator h (Alternative.reset _) OperatorCommand.reset health o c = prepare_reset h c
  handle_operator h (Alternative.reset _) OperatorCommand.stop health o c =
      (Change.enter Target.ready, applied)
  handle_operator h (Alternative.reset _) _ health o c = (Change.stay, o)

  -- Reset is left: a session that is under way is aborted.
  unfoldable pub exit_reset :
      Health → PeriodicGate D → Controller D M C → PeriodicGate D × Controller D M C
  exit_reset h gate c =
      let aborted =
        abort (if h.ready then Outcome.stopped else Outcome.aborted_unhealthy)
          (if h.ready then "stop command" else "the vehicle state is lost or outside the fence")
          (reset_measurement h c) c.executor in
      emit_reset_zero true gate
        (record c { executor = finish (if active c.executor then aborted else c.executor) })

  -- Custom1 leaves its reference to the controller.
  unfoldable pub exit : Health → Alternative D → Controller D M C → Alternative D × Controller D M C
  exit h (Alternative.self_check gate) c = (Alternative.self_check gate, c)
  exit h (Alternative.ready gate) c = (Alternative.ready gate, c)
  exit h (Alternative.custom1 s) c =
      let r = emit_zero true s c in (Alternative.custom1 r.0, record (r.1) { idle_pva = s.pva })
  exit h (Alternative.reset gate) c = let r = exit_reset h gate c in (Alternative.reset r.0, r.1)

  -- The tests of a completed command
  abbrev pub is_usable : ControlCommand D → Controller D M C → Bool
  is_usable command c =
      let stamp = time_to_sec command.stamp in
      let age = c.current_time_sec ⊖ stamp in
      f.isfinite stamp
      && (lit 0 0 ≼ stamp)
      && f.isfinite command.linear_speed
      && f.isfinite command.angular_speed
      && (f.neg (lit 5 2) ≼ age)
      && (age ≼ c.config.result_timeout)

  unfoldable pub unused : Custom1 D → Controller D M C → Custom1 D × Controller D M C
  unused s c = if not (command_ready c) then emit_zero false s c else (s, c)

  -- The command of the solve in flight, in time.
  unfoldable pub use_command :
      Option (ControlCommand D) → Custom1 D → Controller D M C → Custom1 D × Controller D M C
  use_command none s c = unused s c
  use_command (some command) s c =
      if is_usable command c then emit_command s (set_command command c) else unused s c

  unfoldable pub complete_solve :
      Option (SolveTicket D)
      → NmpcCompletion D
      → Custom1 D
      → Controller D M C
      → Custom1 D × Controller D M C
  complete_solve none result s c = (s, c)
  complete_solve (some t) result s c =
      let done = record s { in_flight = none } in
      if is_flatness c.config.tracking_strategy || not (result.sequence == t.sequence)
      then (s, c)
      else if t.deadline ≺ c.current_time_sec
      then (done, c)
      else use_command result.command done c

  unfoldable pub handle_completion :
      Alternative D → NmpcCompletion D → Controller D M C → Alternative D × Controller D M C
  handle_completion (Alternative.custom1 s) result c =
      let r = complete_solve s.in_flight result s c in (Alternative.custom1 r.0, r.1)
  handle_completion s result c = (s, c)

  -- A reference goes to Custom1, or waits in the controller.
  unfoldable pub handle_pva :
      Alternative D → WorldPvaReference D → Controller D M C → Alternative D × Controller D M C
  handle_pva (Alternative.custom1 s) p c = (Alternative.custom1 (record s { pva = p }), c)
  handle_pva s p c = (s, record c { idle_pva = p })

  unfoldable pub enter_reset :
      Health → Run D → PeriodicGate D → Controller D M C → PeriodicGate D × Controller D M C
  enter_reset h run gate c =
      let cleared = clear_command c in
      emit_reset_zero true gate (record cleared {
        reset_session_counter = u32 (c.reset_session_counter + 1);
        reset_ever_started = true;
        executor = install run (reset_measurement h cleared) c.executor;
        last_reset_hold_reason =
            if reset_target_ready c
            then ""
            else "no target: reset_pose cache and reset_initial_* missing";
      })

  -- What is entered, and the controller with its command cleared.
  unfoldable pub enter : Health → Target D → Controller D M C → Alternative D × Controller D M C
  enter h (Target.reset run) c =
      let r = enter_reset h run new_gate c in (Alternative.reset r.0, r.1)
  enter h (Target.custom1 speed now) c =
      (entered (Target.custom1 speed now), record (clear_command c) { idle_pva = no_pva })
  enter h t c = (entered t, clear_command c)
