-- ===== src/Mecanum/Twist.antt =====
-- mecanum_ugv_controller.cpp, `handle(Reset&, Tick)`: the command of a Reset, and the executor that gives it.
use xgc2_ugv_controller.Base.{
  ◌≡◌, refl, Bool, true, false, not, if_cases, Bool-cases, inl, inr, arith,
}
use xgc2_ugv_controller.Floating.{Double, lit, ◌⊘◌}
use xgc2_ugv_controller.Clock.Gate.{PeriodicGate, due}
use xgc2_ugv_controller.ResetClient.Executor.{Executor, Measurement}
use xgc2_ugv_controller.ResetClient.Executor.Step.{step}
use xgc2_ugv_controller.Mecanum.Controller.{
  Controller, Alternative, Health, reset_measurement, set_command,
}
use xgc2_ugv_controller.Mecanum.Handlers.{tick_reset}
use xgc2_ugv_controller.ResetClient.Executor.Poll.{poll}
use xgc2_ugv_controller.ResetClient.Executor.{StepOutput}
use xgc2_ugv_controller.ResetClient.Executor.Safety.{SafeOutput, step-SafeOutput}
use xgc2_ugv_controller.Mecanum.Types.{no_control, ControllerOutput}
use xgc2_ugv_controller.Mecanum.Controller.{requires_zero_command, emit}
use xgc2_ugv_controller.Mecanum.Handlers.{reset_command}
use xgc2_ugv_controller.Mecanum.Handlers.Effects.{command-emit_reset_zero}

module _ {D M : Type 0} ⦃f : Double D⦄ where
  -- The command after a tick: none, or the twist of a step that permits a motion, for a healthy vehicle whose
  -- executor asks for no zero.
  pub data SafeCommand (h : Health) (m : Measurement D) (polled : Executor D) (c : Controller D M)
      : Type 0 where
    stands : c.command ≡ no_control → SafeCommand h m polled c
    drives :
        (out : StepOutput D)
        → SafeOutput m polled out
        → h.ready ≡ true
        → requires_zero_command c.executor ≡ false
        → c.command ≡ reset_command h out.command
        → SafeCommand h m polled c

  commanded-SafeCommand :
      (h : Health) (m : Measurement D) (polled : Executor D) (out : StepOutput D)
      (c : Controller D M)
      → SafeOutput m polled out
      → h.ready ≡ true
      → SafeCommand h m polled (set_command (reset_command h out.command) c)
  unfolding set_command
  commanded-SafeCommand h m polled out c safe ready =
      elim (Bool-cases (requires_zero_command c.executor)) [
        | inl e ↦ stands (rw e refl)
        | inr e ↦ drives out safe ready e (rw e refl)
      ]

  emitted-SafeCommand :
      (h : Health) (m : Measurement D) (polled : Executor D) (o : ControllerOutput D)
      (c : Controller D M)
      → SafeCommand h m polled c
      → SafeCommand h m polled (emit o c)
  emitted-SafeCommand h m polled o c (stands e) = stands e
  emitted-SafeCommand h m polled o c (drives out safe ready zero e) = drives out safe ready zero e

  -- The tick of a Reset leaves no command, or it leaves the twist of the executor's step, for a healthy vehicle whose
  -- executor asks for no zero; and that twist is zero unless the executor, as it polls, permits a motion.
  pub tick_reset-SafeCommand :
      (h : Health) (gate : PeriodicGate D) (c : Controller D M)
      → let m = reset_measurement h c in SafeCommand h m (poll m c.executor) (tick_reset h gate c).1
  unfolding tick_reset
  tick_reset-SafeCommand h gate c =
      let m = reset_measurement h c in
      let polled = poll m c.executor in
      let s = step m c.executor in
      let stepped = record c { executor = s.0 } in
      let Safe : Alternative D × Controller D M × Bool → Type 0 = λ r. SafeCommand h m polled r.1 in
      if_cases Safe s.1.ended (λ _. stands (command-emit_reset_zero false gate stepped))
        (λ _.
          if_cases Safe (not h.ready) (λ _. stands (command-emit_reset_zero false gate stepped))
            (λ healthy.
              let commanded =
                commanded-SafeCommand h m polled s.1 stepped (step-SafeOutput m c.executor)
                  (ground (arith, healthy)) in
              if_cases (SafeCommand h m polled)
                (due c.wall_time_sec (lit 1 0 ⊘ c.config.command_publish_rate_hz) gate).1
                (λ _. emitted-SafeCommand h m polled _ _ commanded) (λ _. commanded)))
