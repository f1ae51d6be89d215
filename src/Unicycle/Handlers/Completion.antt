-- ===== src/Unicycle/Handlers/Completion.antt =====
-- unicycle_ugv_controller.cpp, `Spec::handle(Custom1&, const NmpcCompletion&)`: what a completed solve does.
use xgc2_ugv_controller.Base.{◌≡◌, Bool, true, false, ◌==◌, ◌⊎◌, Option, none, some}
use xgc2_ugv_controller.Floating.{Double, ◌≺◌}
use xgc2_ugv_controller.Mecanum.Controller.{requires_zero_command}
use xgc2_ugv_controller.Unicycle.Types.{ControlCommand, NmpcCompletion, no_control}
use xgc2_ugv_controller.Unicycle.Controller.{
  Controller, Custom1, SolveTicket, command_ready, is_flatness,
}
use xgc2_ugv_controller.Unicycle.Handlers.{is_usable}
use xgc2_ugv_controller.Unicycle.Publish.Effects.{Published}

module _ {D M C : Type 0} ⦃f : Double D⦄ where
  -- The completion of the solve in flight, which is the one that NMPC waits for.
  pub record IsAwaited (result : NmpcCompletion D) (s : Custom1 D) (c : Controller D M C)
      (t : SolveTicket D) : Type 0 where
    pub by_nmpc : is_flatness c.config.tracking_strategy ≡ false
    pub in_flight : s.in_flight ≡ some t
    pub same_sequence : (result.sequence == t.sequence) ≡ true

  -- The controller keeps its command, or has none; what it publishes is a zero with no command, or a
  -- command that is ready.
  pub record Keeps (c c' : Controller D M C) : Type 0 where
    pub kept_or_cleared : (c'.command ≡ c.command) ⊎ (c'.command ≡ no_control)
    pub published : Published c.outputs c' c'.outputs

  -- Whether a completion has a command that is usable.
  abbrev pub offers : Option (ControlCommand D) → Controller D M C → Bool
  offers none c = false
  offers (some command) c = is_usable command c

  -- What a completion does: nothing, where it is not awaited; late it only ends the solve; without a
  -- command that is usable the solve ends and the old command stays while it is ready; and a usable
  -- command becomes the controller's, unless the executor asks for zero or it is not ready by the tests of a
  -- command that is published.
  pub data Completes (result : NmpcCompletion D) (s : Custom1 D) (c : Controller D M C)
      : Custom1 D × Controller D M C → Type 0 where
    ignores : ((t : SolveTicket D) → ¬ IsAwaited result s c t) → Completes result s c (s, c)
    comes_late :
        (t : SolveTicket D)
        → IsAwaited result s c t
        → (t.deadline ≺ c.current_time_sec) ≡ true
        → Completes result s c (record s { in_flight = none }, c)
    falls_back :
        (t : SolveTicket D) (r : Custom1 D × Controller D M C)
        → IsAwaited result s c t
        → (t.deadline ≺ c.current_time_sec) ≡ false
        → offers result.command c ≡ false
        → r.0.in_flight ≡ none
        → Keeps c r.1
        → (command_ready c ≡ false) ⊎ (r.1 ≡ c)
        → Completes result s c r
    uses :
        (t : SolveTicket D) (command : ControlCommand D) (r : Custom1 D × Controller D M C)
        → IsAwaited result s c t
        → (t.deadline ≺ c.current_time_sec) ≡ false
        → result.command ≡ some command
        → is_usable command c ≡ true
        → r.0.in_flight ≡ none
        → (requires_zero_command c.executor ≡ true)
          ⊎ ((command_ready (record c { command = command }) ≡ false) ⊎ (r.1.command ≡ command))
        → (r.1.command ≡ command) ⊎ (r.1.command ≡ no_control)
        → (requires_zero_command c.executor ≡ false) ⊎ (r.1.command ≡ no_control)
        → Published c.outputs r.1 r.1.outputs
        → Completes result s c r

  -- A completion without a usable command, after the solve has ended.
  record FallsBack (c : Controller D M C) (r : Custom1 D × Controller D M C) : Type 0 where
    ended : r.0.in_flight ≡ none
    keeps : Keeps c r.1
    while_ready : (command_ready c ≡ false) ⊎ (r.1 ≡ c)
