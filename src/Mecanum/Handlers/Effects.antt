-- ===== src/Mecanum/Handlers/Effects.antt =====
-- mecanum_ugv_controller.cpp, `Spec`: what the handlers make of the command and of the executor.
use xgc2_ugv_controller.Base.{
  ◌≡◌, refl, sym, Bool, true, false, Option, none, some, if_cases, arith, subst,
}
use xgc2_ugv_controller.Floating.{Double}
use xgc2_ugv_controller.Clock.Gate.{PeriodicGate}
use xgc2_ugv_controller.Clock.Cadence.{WallControlCadence}
use xgc2_ugv_controller.ResetClient.Protocol.{Result}
use xgc2_ugv_controller.ResetClient.Executor.{Executor, active}
use xgc2_ugv_controller.ResetClient.Executor.Session.{set_spec, set_timeout}
use xgc2_ugv_controller.ResetClient.Executor.Step.{step}
use xgc2_ugv_controller.ResetClient.Executor.Report.{commit_result, take_result, peek_result}
use xgc2_ugv_controller.ResetClient.Executor.Reach.{commit_result-Inv}
use xgc2_ugv_controller.ResetClient.Executor.Invariant.{Inv, finish-Inv}
use xgc2_ugv_controller.ResetClient.Executor.Invariant.Stepping.{step-Inv}
use xgc2_ugv_controller.ResetClient.Executor.Invariant.Operations.{
  same-Inv, abort-Inv, install-Inv, set_spec-Inv,
}
use xgc2_ugv_controller.Mecanum.Types.{AngleMath, no_control}
use xgc2_ugv_controller.Mecanum.Controller.{
  Controller, Alternative, Target, Health, mode_of, apply_reset_spec, reset_measurement,
  set_command,
}
use xgc2_ugv_controller.Mecanum.Handlers.{
  tick, tick_custom1, tick_missing, tick_reset, publish_idle, emit_reset_zero, exit, exit_reset,
  enter, enter_reset,
}
use xgc2_ugv_controller.Mecanum.Modes.{drives}

module _ {D : Type 0} ⦃f : Double D⦄ where
  pub take_result-Inv : (e : Executor D) → Inv e → Inv (take_result e).0
  unfolding take_result
  take_result-Inv e v =
      elim (peek_result e)
        as (λ o.
          let taken : Executor D × Option (Result D) = elim o [
            | none ↦ (e, none)
            | some r ↦ (commit_result e, some r)
          ] in
          Inv taken.0) [ none ↦ v | some r ↦ commit_result-Inv e v ]

module _ {D M : Type 0} ⦃f : Double D⦄ where
  pub executor-emit_reset_zero :
      (force : Bool) (gate : PeriodicGate D) (c : Controller D M)
      → (emit_reset_zero force gate c).1.executor ≡ c.executor
  unfolding emit_reset_zero
  executor-emit_reset_zero force gate c = ground arith

  pub command-emit_reset_zero :
      (force : Bool) (gate : PeriodicGate D) (c : Controller D M)
      → (emit_reset_zero force gate c).1.command ≡ no_control
  unfolding emit_reset_zero
  command-emit_reset_zero force gate c = ground arith

  -- What is entered begins with no command.
  pub command-enter :
      (h : Health) (t : Target D) (c : Controller D M) → (enter h t c).1.command ≡ no_control
  unfolding enter enter_reset
  command-enter h Target.self_check c = refl
  command-enter h Target.ready c = refl
  command-enter h Target.custom1 c = refl
  command-enter h (Target.reset run) c = command-emit_reset_zero true _ _

  pub enter-Inv :
      (h : Health) (t : Target D) (c : Controller D M)
      → Inv c.executor
      → Inv (enter h t c).1.executor
  unfolding enter enter_reset
  enter-Inv h Target.self_check c v = v
  enter-Inv h Target.ready c v = v
  enter-Inv h Target.custom1 c v = v
  enter-Inv h (Target.reset run) c v =
      rw (executor-emit_reset_zero true _ _) (install-Inv run _ c.executor)

  pub exit-Inv :
      (h : Health) (s : Alternative D) (c : Controller D M)
      → Inv c.executor
      → Inv (exit h s c).1.executor
  unfolding exit exit_reset
  exit-Inv h (Alternative.self_check gate) c v = v
  exit-Inv h (Alternative.ready gate) c v = v
  exit-Inv h (Alternative.custom1 gate sample) c v = v
  exit-Inv h (Alternative.reset gate) c v =
      rw (executor-emit_reset_zero true gate _) (
        finish-Inv _
          (if_cases Inv (active c.executor) (λ _. abort-Inv _ _ _ c.executor v) (λ _. v)))

  tick_missing-same :
      (w : Option (WallControlCadence D)) (gate : PeriodicGate D) (sample : Option D)
      (c : Controller D M)
      → (tick_missing w gate sample c).1.executor ≡ c.executor
  unfolding tick_missing
  tick_missing-same none gate sample c = refl
  tick_missing-same (some w) gate sample c = ground arith

  pub executor-tick_reset :
      (h : Health) (gate : PeriodicGate D) (c : Controller D M)
      → (tick_reset h gate c).1.executor ≡ (step (reset_measurement h c) c.executor).0
  unfolding tick_reset set_command
  executor-tick_reset h gate c = ground (
    arith,
    executor-emit_reset_zero false gate
        (record c { executor = (step (reset_measurement h c) c.executor).0 }),
  )

  pub tick-Inv :
      ⦃angle : AngleMath D⦄
      → (h : Health) (s : Alternative D) (c : Controller D M) → Inv c.executor
      → Inv (tick h s c).1.executor
  unfolding tick publish_idle tick_custom1 set_command
  tick-Inv h (Alternative.self_check gate) c v =
      if_cases (λ (r : Controller D M). Inv r.executor) _ (λ _. v) (λ _. v)
  tick-Inv h (Alternative.ready gate) c v =
      if_cases (λ (r : Controller D M). Inv r.executor) _ (λ _. v) (λ _. v)
  tick-Inv h (Alternative.custom1 gate sample) c v = subst Inv (sym same) v
    where
      same : (tick_custom1 h gate sample c).1.executor ≡ c.executor
      same = ground (arith, tick_missing-same c.wall_control gate sample c)
  tick-Inv h (Alternative.reset gate) c v =
      rw (executor-tick_reset h gate c) (step-Inv (reset_measurement h c) c.executor v)

  -- A tick of an alternative that drives nothing leaves the command alone.
  pub command-tick :
      ⦃angle : AngleMath D⦄
      → (h : Health) (s : Alternative D) (c : Controller D M) → drives (mode_of s) ≡ false
      → (tick h s c).1.command ≡ c.command
  unfolding tick publish_idle
  command-tick h (Alternative.self_check gate) c e = ground arith
  command-tick h (Alternative.ready gate) c e = ground arith
  command-tick h (Alternative.custom1 gate sample) c e = ground (arith, e)
  command-tick h (Alternative.reset gate) c e = ground (arith, e)

  pub set_reset_spec-Inv : (c : Controller D M) → Inv c.executor → Inv (apply_reset_spec c).executor
  unfolding apply_reset_spec set_timeout
  set_reset_spec-Inv c v =
      same-Inv (set_spec _ c.executor) _ refl refl refl refl (set_spec-Inv _ c.executor v)
