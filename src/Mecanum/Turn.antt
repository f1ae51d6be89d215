-- ===== src/Mecanum/Turn.antt =====
-- mecanum_ugv_controller.cpp: a turn of the controller, and its other operations. `healthReady` reads
-- nothing that a turn changes after the time, so it is computed once; where it throws the operation is
-- `none`. Logs are left out.
use xgc2_ugv_controller.Base.{
  ℕ, Bool, true, false, not, ◌&&◌, ◌||◌, String, [], Option, none, some, ℤ, if◌then◌else◌, and_then,
  same_bool, str_append, ◌==◌,
}
use xgc2_ugv_controller.Floating.{Double, lit, ◌⊗◌, ◌⊘◌}
use xgc2_ugv_controller.StateMachine.{AdtMachine}
use xgc2_ugv_controller.Clock.Gate.{due}
use xgc2_ugv_controller.ResetClient.Protocol.{Grant, Result, Session}
use xgc2_ugv_controller.ResetClient.Executor.{permission, active}
use xgc2_ugv_controller.ResetClient.Executor.Session.{permission_pending}
use xgc2_ugv_controller.ResetClient.Executor.Observe.{observe, on_zero_published}
use xgc2_ugv_controller.ResetClient.Executor.Grants.{on_grant}
use xgc2_ugv_controller.ResetClient.Executor.Poll.{poll}
use xgc2_ugv_controller.ResetClient.Executor.Report.{
  make_session, session_due, mark_session_published, take_result, commit_result,
}
use xgc2_ugv_controller.Mecanum.Types.{
  AngleMath, ControlMode, OperatorCommand, CommandOutcome, Code, no_outcome, mode_code,
}
use xgc2_ugv_controller.Mecanum.Controller.{
  Controller, Alternative, Target, Change, Health, clear_command, health, reset_measurement, mode,
  reset_target_ready, world_reference_ready, requires_zero_command,
}
use xgc2_ugv_controller.Mecanum.Handlers.{tick, handle_operator, handle_health, exit, enter}

abbrev pub is_custom1 : OperatorCommand → Bool
is_custom1 OperatorCommand.custom1 = true
is_custom1 _ = false

abbrev mode_name : ControlMode → String
mode_name ControlMode.self_check = "SelfCheck"
mode_name ControlMode.ready = "Ready"
mode_name ControlMode.custom1 = "Custom1"
mode_name ControlMode.reset = "Reset"

abbrev pub refused : CommandOutcome
refused = record {
  code = Code.permission_active;
  message = "Reset permission is active or retirement is not acknowledged; motion refused";
}

abbrev admission_reason : ControlMode → Bool → String
admission_reason ControlMode.self_check true = " reason=health-ready-but-stuck-in-SelfCheck"
admission_reason ControlMode.self_check false = " reason=unhealthy-SelfCheck-has-no-Reset-edge"
admission_reason _ _ = " reason=no-matching-transition"

-- `describeResetAdmissionMiss`
abbrev admission_miss : String → ControlMode → Bool → Bool → String
admission_miss source mode healthy target = str_append "RESET_REQUESTED unmatched topic=" (
    str_append source (
      str_append " CONTROL=" (
        str_append (mode_name mode) (
          str_append " health=" (
            str_append (if healthy then "ready" else "unhealthy") (
              str_append " target=" (
                str_append (if target then "ready" else "missing")
                  (admission_reason mode healthy))))))))

abbrev miss_text : CommandOutcome → String → String
miss_text o text = elim o.code [ Code.applied ↦ "" | Code.unmatched ↦ text | _ ↦ o.message ]

module _ {D M : Type 0} ⦃f : Double D⦄ where
  -- The first lines of `observeInputs`: the time, and the phase of the first call.
  unfoldable pub at_time : D → D → Controller D M → Controller D M
  at_time now wall c = record c {
    current_time_sec = now;
    wall_time_sec = wall;
    control_phase_ns = or_else c.control_phase_ns (f.llround (wall ⊗ lit 1000000000 0));
  }
    where
      or_else : Option ℤ → ℤ → Option ℤ
      or_else none p = some p
      or_else (some p) _ = some p

  unfoldable pub observed : Health → Controller D M → Controller D M
  observed h c =
      let m = reset_measurement h c in
      record c { executor = poll m (if c.state.received then observe m c.executor else c.executor) }

  unfoldable pub observe_inputs : D → D → Controller D M → Option (Controller D M)
  observe_inputs now wall c =
      let timed = at_time now wall c in and_then (health timed) (λ h. some (observed h timed))

  unfoldable pub status_due : Controller D M → Bool
  status_due c =
      (due c.current_time_sec (lit 1 0 ⊘ c.config.status_publish_rate_hz) c.status_gate).1

  unfoldable pub status_published : Controller D M → Controller D M
  status_published c = record c {
    status_gate =
        (due c.current_time_sec (lit 1 0 ⊘ c.config.status_publish_rate_hz) c.status_gate).0;
  }

  unfoldable pub on_reset_grant : Grant D → Controller D M → Option (Controller D M)
  on_reset_grant g c = and_then (health c) (λ h.
      let told = record c { executor = on_grant g (reset_measurement h c) c.executor } in
      some (if requires_zero_command told.executor then clear_command told else told))

  -- `takeResetSession`; no session where none is due.
  unfoldable pub take_reset_session : Controller D M → Option (Option (Session D))
  take_reset_session c = and_then (health c) (λ h.
      let m = reset_measurement h c in
      some (if session_due m c.executor then some (make_session m c.executor) else none))

  unfoldable pub take_reset_result : Controller D M → Controller D M × Option (Result D)
  take_reset_result c = let r = take_result c.executor in (record c { executor = r.0 }, r.1)

  unfoldable pub reset_result_published : Controller D M → Controller D M
  reset_result_published c = record c { executor = commit_result c.executor }

  unfoldable pub reset_session_published : Controller D M → Option (Controller D M)
  reset_session_published c = and_then (health c) (λ h.
      some (record c { executor = mark_session_published (reset_measurement h c) c.executor }))

  unfoldable pub notify_reset_zero_published : D → ℕ → ℕ → Controller D M → Option (Controller D M)
  notify_reset_zero_published now generation brake c = and_then (health c) (λ h. some (
      if (reset_measurement h c).external_command_zero
      then record c { executor = on_zero_published now generation brake c.executor }
      else c))

  module _ ⦃k : AdtMachine (Alternative D) D M⦄ where
    -- `machine_.dispatch(Exit{})`, `enter` and `machine_.apply`
    unfoldable pub change_to : Health → Target D → Controller D M → Controller D M
    change_to h t c =
        let left = exit h (k.state c.machine) c in
        let e = enter h t (record (left.1) { machine = k.put left.0 c.machine }) in
        record (e.1) { machine = k.apply e.0 c.current_time_sec e.1.machine }

    -- `apply`
    unfoldable pub apply_change : Health → Change D → Controller D M → Controller D M × Bool
    apply_change h Change.stay c = (c, false)
    apply_change h (Change.enter t) c = (change_to h t c, true)

    -- Whether a turn without a command starts Custom1 by itself.
    unfoldable pub auto_start :
        Health → Controller D M → Option OperatorCommand → Option OperatorCommand
    auto_start h c (some op) = some op
    auto_start h c none =
        if not c.reset_ever_started
          && not (permission_pending (permission c.executor))
          && c.config.auto_start_tracking
          && h.ready
          && world_reference_ready c
          && (mode_code (mode c) == 2)
        then some OperatorCommand.custom1
        else none

    -- `machine_.dispatch(Tick{})`
    unfoldable pub dispatch_tick :
        ⦃angle : AngleMath D⦄ → Health → Controller D M → Controller D M × Bool
    dispatch_tick h c =
        let r = tick h (k.state c.machine) c in
        (record (r.1) { machine = k.put r.0 c.machine }, r.2)

    -- The command of a turn: the controller, the outcome, and whether the alternative changed.
    unfoldable pub take_command :
        Health
        → Option OperatorCommand
        → Bool
        → Controller D M
        → Controller D M × CommandOutcome × Bool
    take_command h none health_changed c = (c, no_outcome, false)
    take_command h (some op) health_changed c =
        let r =
          handle_operator h (k.state c.machine) op (if health_changed then some h.ready else none)
            no_outcome c in
        let a = apply_change h r.0 c in
        if is_custom1 op && (permission_pending (permission c.executor) || active c.executor)
        then (c, refused, false)
        else (a.0, r.1, a.1)

    -- A change of health, where the command changed nothing.
    unfoldable pub take_health : Health → Bool → Controller D M × Bool → Controller D M × Bool
    take_health h health_changed (c, changed) =
        if not changed && health_changed
        then apply_change h (handle_health (k.state c.machine) h.ready) c
        else (c, changed)

    -- The end of a Reset, where nothing else changed.
    unfoldable pub take_finished : Health → Bool → Controller D M × Bool → Controller D M
    take_finished h finished (c, changed) =
        if not changed && finished then change_to h Target.ready c else c

    unfoldable pub note_admission :
        Health → Option OperatorCommand → CommandOutcome → String → Controller D M → Controller D M
    note_admission h (some OperatorCommand.reset) o source c = record c {
      last_reset_admission_miss =
          miss_text o (admission_miss source (mode c) h.ready (reset_target_ready c));
    }
    note_admission h _ o source c = c

    -- A turn after its `observeInputs`.
    unfoldable pub turn_at :
        ⦃angle : AngleMath D⦄
        → Health
        → Option OperatorCommand
        → String
        → Controller D M
        → Controller D M × CommandOutcome
    turn_at h given source c =
        let input = auto_start h c given in
        let health_changed = not (same_bool h.ready c.last_health_ready) in
        let ticked = dispatch_tick h (record c { outputs = []; last_health_ready = h.ready }) in
        let taken = take_command h input health_changed ticked.0 in
        let moved = take_finished h ticked.1 (take_health h health_changed (taken.0, taken.2)) in
        (note_admission h input taken.1 source moved, taken.1)

    -- `turn`; `update` is a turn without a command, `command` is one with a command.
    unfoldable pub turn :
        ⦃angle : AngleMath D⦄
        → D
        → D
        → Option OperatorCommand
        → String
        → Controller D M
        → Option (Controller D M × CommandOutcome)
    turn now wall input source c =
        let timed = at_time now wall c in
        and_then (health timed) (λ h. some (turn_at h input source (observed h timed)))
