-- ===== src/Mecanum/Events/Turns.antt =====
-- mecanum_ugv_controller.cpp, `turn`: its effect on a controller that drives nothing, and on the executor.
use xgc2_ugv_controller.Base.{
  ◌≡◌, sym, ap, ◌∙◌, Bool, false, not, ◌&&◌, ◌||◌, String, Option, none, some, if_cases,
}
use xgc2_ugv_controller.Floating.{Double}
use xgc2_ugv_controller.StateMachine.{AdtMachine}
use xgc2_ugv_controller.ResetClient.Executor.{active, permission}
use xgc2_ugv_controller.ResetClient.Executor.Session.{permission_pending}
use xgc2_ugv_controller.ResetClient.Executor.Invariant.{Inv}
use xgc2_ugv_controller.ResetClient.Executor.Invariant.Motion.{poll-Inv}
use xgc2_ugv_controller.ResetClient.Executor.Invariant.Operations.{observe-Inv}
use xgc2_ugv_controller.Mecanum.Types.{AngleMath, OperatorCommand, CommandOutcome, no_control}
use xgc2_ugv_controller.Mecanum.Controller.{Controller, Alternative, Target, Change, Health, mode}
use xgc2_ugv_controller.Mecanum.Turn.{
  change_to, apply_change, dispatch_tick, take_command, take_health, take_finished, note_admission,
  turn_at, observed, is_custom1,
}
use xgc2_ugv_controller.Mecanum.Modes.{drives}
use xgc2_ugv_controller.Mecanum.Modes.Turn.{mode-dispatch_tick}
use xgc2_ugv_controller.Mecanum.Handlers.Effects.{
  command-enter, enter-Inv, exit-Inv, tick-Inv, command-tick,
}

module _ {D M : Type 0} ⦃f : Double D⦄ where
  module _ ⦃k : AdtMachine (Alternative D) D M⦄ where
    -- A controller that drives nothing has no command, and its executor keeps the protocol.
    pub record Sound (c : Controller D M) : Type 0 where
      pub parked : drives (mode c) ≡ false → c.command ≡ no_control
      pub protocol : Inv c.executor

    change_to-Sound :
        (h : Health) (t : Target D) (c : Controller D M) → Inv c.executor → Sound (change_to h t c)
    unfolding change_to
    change_to-Sound h t c v = record {
      parked = λ _. command-enter h t _;
      protocol = enter-Inv h t _ (exit-Inv h (k.state c.machine) c v);
    }

    apply_change-Sound :
        (h : Health) (r : Change D) (c : Controller D M) → Sound c → Sound (apply_change h r c).0
    unfolding apply_change
    apply_change-Sound h Change.stay c s = s
    apply_change-Sound h (Change.enter t) c s = change_to-Sound h t c s.protocol

    take_command-Sound :
        (h : Health) (i : Option OperatorCommand) (health_changed : Bool) (c : Controller D M)
        → Sound c
        → Sound (take_command h i health_changed c).0
    unfolding take_command
    take_command-Sound h none health_changed c s = s
    take_command-Sound h (some op) health_changed c s =
        if_cases (λ (r : Controller D M × CommandOutcome × Bool). Sound r.0)
          (is_custom1 op && (permission_pending (permission c.executor) || active c.executor))
          (λ _. s) (λ _. apply_change-Sound h _ c s)

    take_health-Sound :
        (h : Health) (health_changed : Bool) (r : Controller D M × Bool)
        → Sound r.0
        → Sound (take_health h health_changed r).0
    unfolding take_health
    take_health-Sound h health_changed (c, changed) s =
        if_cases (λ (r : Controller D M × Bool). Sound r.0) (not changed && health_changed)
          (λ _. apply_change-Sound h _ c s) (λ _. s)

    take_finished-Sound :
        (h : Health) (finished : Bool) (r : Controller D M × Bool)
        → Sound r.0
        → Sound (take_finished h finished r)
    unfolding take_finished
    take_finished-Sound h finished (c, changed) s =
        if_cases Sound (not changed && finished) (λ _. change_to-Sound h Target.ready c s.protocol)
          (λ _. s)

    note_admission-Sound :
        (h : Health) (i : Option OperatorCommand) (o : CommandOutcome) (source : String)
        (c : Controller D M)
        → Sound c
        → Sound (note_admission h i o source c)
    unfolding note_admission
    note_admission-Sound h (some OperatorCommand.reset) o source c s = record {
      parked = s.parked;
      protocol = s.protocol;
    }
    note_admission-Sound h (some OperatorCommand.custom1) o source c s = s
    note_admission-Sound h (some OperatorCommand.stop) o source c s = s
    note_admission-Sound h (some OperatorCommand.unknown) o source c s = s
    note_admission-Sound h none o source c s = s

    pub observed-Sound : (h : Health) (c : Controller D M) → Sound c → Sound (observed h c)
    unfolding observed
    observed-Sound h c s = record {
      parked = s.parked;
      protocol = poll-Inv _ _ (
          if_cases Inv c.state.received (λ _. observe-Inv _ c.executor s.protocol)
            (λ _. s.protocol));
    }

    module _ ⦃angle : AngleMath D⦄ where
      dispatch_tick-Sound :
          (h : Health) (c : Controller D M) → Sound c → Sound (dispatch_tick h c).0
      unfolding dispatch_tick
      dispatch_tick-Sound h c s = record {
        parked = λ idle.
            let before : drives (mode c) ≡ false =
              ap drives (sym (mode-dispatch_tick h c)) ∙ idle in
            command-tick h (k.state c.machine) c before ∙ s.parked before;
        protocol = tick-Inv h (k.state c.machine) c s.protocol;
      }

      pub turn_at-Sound :
          (h : Health) (given : Option OperatorCommand) (source : String) (c : Controller D M)
          → Sound c
          → Sound (turn_at h given source c).0
      unfolding turn_at
      turn_at-Sound h given source c s = note_admission-Sound h _ _ source _ (
          take_finished-Sound h _ _ (
            take_health-Sound h _ _ (
              take_command-Sound h _ _ _
                (dispatch_tick-Sound h _ (record { parked = s.parked; protocol = s.protocol })))))
