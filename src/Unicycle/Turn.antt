-- ===== src/Unicycle/Turn.antt =====
-- unicycle_ugv_controller.cpp: a turn of the controller, and the reference that it is given between two turns.
-- Logs are left out.
use xgc2_ugv_controller.Base.{
  Bool, true, false, not, ◌&&◌, ◌||◌, String, List, [], ◌∷◌, Option, none, some, if◌then◌else◌,
  and_then, same_bool, str_append, ◌==◌,
}
use xgc2_ugv_controller.Floating.{Double}
use xgc2_ugv_controller.StateMachine.{AdtMachine}
use xgc2_ugv_controller.ResetClient.Executor.{permission, active}
use xgc2_ugv_controller.ResetClient.Executor.Session.{permission_pending}
use xgc2_ugv_controller.Mecanum.Types.{
  AngleMath, ControlMode, OperatorCommand, CommandOutcome, Code, no_outcome, mode_code,
}
use xgc2_ugv_controller.Mecanum.Controller.{Health}
use xgc2_ugv_controller.Mecanum.Turn.{is_custom1, refused}
use xgc2_ugv_controller.Unicycle.Types.{NmpcCompletion, WorldPvaReference}
use xgc2_ugv_controller.Unicycle.Controller.{
  Controller, Alternative, Target, Change, ReferenceSource, mode, reset_target_ready,
  reference_ready,
}
use xgc2_ugv_controller.Unicycle.Handlers.{
  handle_operator, handle_health, handle_completion, handle_pva, exit, enter,
}
use xgc2_ugv_controller.Unicycle.Tick.{tick}
use xgc2_ugv_controller.Unicycle.Operations.{observed_at}

abbrev mode_name : ControlMode → String
mode_name ControlMode.self_check = "SelfCheck"
mode_name ControlMode.ready = "Ready"
mode_name ControlMode.custom1 = "Custom1"
mode_name ControlMode.reset = "Reset"

abbrev admission_reason : ControlMode → Bool → String
admission_reason ControlMode.self_check true = " reason=health-ready-but-stuck-in-SelfCheck"
admission_reason ControlMode.self_check false = " reason=unhealthy-SelfCheck-has-no-Reset-edge"
admission_reason _ _ = " reason=no-matching-transition"

-- `describeResetAdmissionMiss`
abbrev admission_miss : String → ControlMode → Bool → Bool → String
admission_miss source mode healthy target = str_append "RESET_REQUESTED unmatched topic=" (
    str_append source (
      str_append " CONTROL=" (
        str_append (mode_name mode) (
          str_append " health=" (
            str_append (if healthy then "ready" else "unhealthy") (
              str_append " target=" (
                str_append (if target then "ready" else "missing")
                  (admission_reason mode healthy))))))))

abbrev miss_text : CommandOutcome → String → String
miss_text o text = elim o.code [ Code.applied ↦ "" | Code.unmatched ↦ text | _ ↦ o.message ]

module _ {D M C : Type 0} ⦃f : Double D⦄ where
  module _ ⦃k : AdtMachine (Alternative D) D M⦄ where
    -- `setWorldPva`
    unfoldable pub set_world_pva : WorldPvaReference D → Controller D M C → Controller D M C
    set_world_pva reference c =
        let r = handle_pva (k.state c.machine) reference c in
        record (r.1) { machine = k.put r.0 c.machine }

    -- `machine_.dispatch(Exit{})`, `enter` and `machine_.apply`
    unfoldable pub change_to : Health → Target D → Controller D M C → Controller D M C
    change_to h t c =
        let left = exit h (k.state c.machine) c in
        let e = enter h t (record (left.1) { machine = k.put left.0 c.machine }) in
        record (e.1) { machine = k.apply e.0 c.current_time_sec e.1.machine }

    -- `apply`
    unfoldable pub apply_change : Health → Change D → Controller D M C → Controller D M C × Bool
    apply_change h Change.stay c = (c, false)
    apply_change h (Change.enter t) c = (change_to h t c, true)

    -- The command of a turn: the controller, the outcome, and whether the alternative changed.
    unfoldable pub take_command :
        Health
        → Option OperatorCommand
        → Bool
        → Controller D M C
        → Controller D M C × CommandOutcome × Bool
    take_command h none health_changed c = (c, no_outcome, false)
    take_command h (some op) health_changed c =
        let r =
          handle_operator h (k.state c.machine) op (if health_changed then some h.ready else none)
            no_outcome c in
        let a = apply_change h r.0 c in
        if is_custom1 op && (permission_pending (permission c.executor) || active c.executor)
        then (c, refused, false)
        else (a.0, r.1, a.1)

    -- A change of health, where the command changed nothing.
    unfoldable pub take_health : Health → Bool → Controller D M C × Bool → Controller D M C × Bool
    take_health h health_changed (c, changed) =
        if not changed && health_changed
        then apply_change h (handle_health (k.state c.machine) h.ready) c
        else (c, changed)

    -- The end of a Reset, where nothing else changed.
    unfoldable pub take_finished : Health → Bool → Controller D M C × Bool → Controller D M C × Bool
    take_finished h finished (c, changed) =
        if not changed && finished then (change_to h Target.ready c, true) else (c, changed)

    -- `machine_.dispatch(result)`
    unfoldable pub dispatch_completion : NmpcCompletion D → Controller D M C → Controller D M C
    dispatch_completion result c =
        let r = handle_completion (k.state c.machine) result c in
        record (r.1) { machine = k.put r.0 c.machine }

    unfoldable pub dispatch_completions :
        List (NmpcCompletion D) → Controller D M C → Controller D M C
    dispatch_completions [] c = c
    dispatch_completions (result ∷ results) c =
        dispatch_completions results (dispatch_completion result c)

    -- The completed solves, where nothing changed.
    unfoldable pub take_completions : Controller D M C × Bool → Controller D M C
    take_completions (c, changed) = if not changed then dispatch_completions c.completions c else c

    unfoldable pub note_admission :
        Health
        → Option OperatorCommand
        → CommandOutcome
        → String
        → Controller D M C
        → Controller D M C
    note_admission h (some OperatorCommand.reset) o source c = record c {
      last_reset_admission_miss =
          miss_text o (admission_miss source (mode c) h.ready (reset_target_ready c));
    }
    note_admission h _ o source c = c

    module _ ⦃source : ReferenceSource C⦄ where
      -- Whether a turn without a command starts Custom1 by itself.
      unfoldable pub auto_start :
          Health → Controller D M C → Option OperatorCommand → Option OperatorCommand
      auto_start h c (some op) = some op
      auto_start h c none =
          if not c.reset_ever_started
            && not (permission_pending (permission c.executor))
            && c.config.auto_start_tracking
            && h.ready
            && reference_ready (k.state c.machine) c
            && (mode_code (mode c) == 2)
          then some OperatorCommand.custom1
          else none

      -- `machine_.dispatch(Tick{})`
      unfoldable pub dispatch_tick : Health → Controller D M C → Controller D M C × Bool
      dispatch_tick h c =
          let r = tick h (k.state c.machine) c in
          (record (r.1) { machine = k.put r.0 c.machine }, r.2)

      -- A turn after its `observeInputs`.
      unfoldable pub turn_at :
          Health
          → Option OperatorCommand
          → String
          → Controller D M C
          → Controller D M C × CommandOutcome
      turn_at h given topic c =
          let input = auto_start h c given in
          let health_changed = not (same_bool h.ready c.last_health_ready) in
          let begun = record c {
            outputs = [];
            completions = c.completion_inbox;
            completion_inbox = [];
            last_health_ready = h.ready;
          } in
          let ticked = dispatch_tick h begun in
          let taken = take_command h input health_changed ticked.0 in
          let moved = take_finished h ticked.1 (take_health h health_changed (taken.0, taken.2)) in
          (note_admission h input taken.1 topic (take_completions moved), taken.1)

      -- `turn`; `update` is a turn without a command, `command` is one with a command.
      unfoldable pub turn :
          ⦃angle : AngleMath D⦄
          → D
          → D
          → Option OperatorCommand
          → String
          → Controller D M C
          → Option (Controller D M C × CommandOutcome)
      turn now wall input topic c =
          and_then (observed_at now wall c) (λ r. some (turn_at r.0 input topic r.1))
