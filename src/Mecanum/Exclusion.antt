-- ===== src/Mecanum/Exclusion.antt =====
-- mecanum_ugv_controller.cpp, `turn`: Custom1 against a Reset.
use xgc2_ugv_controller.Base.{
  ◌≡◌, refl, sym, Bool, true, false, not, ◌||◌, String, [], Option, none, some, if_cases,
  if◌then◌else◌, arith, same_bool,
}
use xgc2_ugv_controller.Floating.{Double}
use xgc2_ugv_controller.StateMachine.{AdtMachine}
use xgc2_ugv_controller.ResetClient.Executor.{Executor, active, permission}
use xgc2_ugv_controller.ResetClient.Executor.Session.{permission_pending}
use xgc2_ugv_controller.Mecanum.Types.{
  AngleMath, OperatorCommand, CommandOutcome, no_outcome, is_ok,
}
use xgc2_ugv_controller.Mecanum.Controller.{Controller, Alternative, Health}
use xgc2_ugv_controller.Mecanum.Handlers.{exit, enter, handle_operator}
use xgc2_ugv_controller.Mecanum.Turn.{
  change_to, apply_change, dispatch_tick, take_command, take_health, take_finished, note_admission,
  turn_at, auto_start,
}

module _ {D : Type 0} ⦃f : Double D⦄ where
  -- No Reset session is under way, and no permission is pending.
  pub record IsFree (e : Executor D) : Type 0 where
    pub idle : active e ≡ false
    pub quiet : permission_pending (permission e) ≡ false

  idle-IsFree :
      (e : Executor D) → (permission_pending (permission e) || active e) ≡ false → IsFree e
  idle-IsFree e h = record { idle = ground (arith, h); quiet = ground (arith, h) }

module _ {D M : Type 0} ⦃f : Double D⦄ ⦃k : AdtMachine (Alternative D) D M⦄ where
  -- What a Custom1 command comes to.
  data Starts : Controller D M × CommandOutcome × Bool → Type 0 where
    fails :
        (c : Controller D M) (o : CommandOutcome) (changed : Bool)
        → is_ok o ≡ false
        → Starts (c, o, changed)
    starts : (c : Controller D M) (o : CommandOutcome) → IsFree c.executor → Starts (c, o, true)

  custom1_decision-Starts :
      (h : Health) (s : Alternative D) (health : Option Bool) (c : Controller D M)
      → s ≡ k.state c.machine
      → IsFree c.executor
      → let r = handle_operator h s OperatorCommand.custom1 health no_outcome c in
        let a = apply_change h r.0 c in Starts (a.0, r.1, a.1)
  unfolding handle_operator apply_change change_to exit enter
  custom1_decision-Starts h (Alternative.self_check _) health c e free = fails _ _ _ refl
  custom1_decision-Starts h (Alternative.ready _) health c e free = rw (sym e) (starts _ _ free)
  custom1_decision-Starts h (Alternative.custom1 _ _) (some false) c e free = fails _ _ _ refl
  custom1_decision-Starts h (Alternative.custom1 _ _) (some true) c e free = fails _ _ _ refl
  custom1_decision-Starts h (Alternative.custom1 _ _) none c e free = fails _ _ _ refl
  custom1_decision-Starts h (Alternative.reset _) health c e free = fails _ _ _ refl

  take_custom1-Starts :
      (h : Health) (health_changed : Bool) (c : Controller D M)
      → Starts (take_command h (some OperatorCommand.custom1) health_changed c)
  unfolding take_command
  take_custom1-Starts h health_changed c =
      if_cases Starts (permission_pending (permission c.executor) || active c.executor)
        (λ _. fails c _ false refl)
        (λ free.
          custom1_decision-Starts h (k.state c.machine)
            (if health_changed then some h.ready else none) c refl (idle-IsFree c.executor free))

  finish_custom1 :
      (h : Health) (i : Option OperatorCommand) (health_changed finished : Bool) (source : String)
      (taken : Controller D M × CommandOutcome × Bool)
      → Starts taken
      → is_ok taken.1 ≡ true
      → IsFree
          (note_admission h i taken.1 source
            (take_finished h finished (take_health h health_changed (taken.0, taken.2)))).executor
  unfolding take_health take_finished note_admission
  finish_custom1 h i health_changed finished source (c, o, changed) (fails _ _ _ bad) ok = cc
  finish_custom1 h (some OperatorCommand.reset) health_changed finished source (c, o, true)
        (starts _ _ free) ok =
      free
  finish_custom1 h (some OperatorCommand.custom1) health_changed finished source (c, o, true)
        (starts _ _ free) ok =
      free
  finish_custom1 h (some OperatorCommand.stop) health_changed finished source (c, o, true)
        (starts _ _ free) ok =
      free
  finish_custom1 h (some OperatorCommand.unknown) health_changed finished source (c, o, true)
        (starts _ _ free) ok =
      free
  finish_custom1 h none health_changed finished source (c, o, true) (starts _ _ free) ok = free

  -- A turn whose command is an applied Custom1, given or started by the turn itself, ends with no Reset
  -- session under way and no permission of a Reset pending.
  pub turn_at-IsFree :
      ⦃angle : AngleMath D⦄
      → (h : Health) (given : Option OperatorCommand) (source : String) (c : Controller D M)
      → auto_start h c given ≡ some OperatorCommand.custom1
      → is_ok (turn_at h given source c).1 ≡ true
      → IsFree (turn_at h given source c).0.executor
  unfolding turn_at
  turn_at-IsFree h given source c e ok =
      let begun = record c { outputs = []; last_health_ready = h.ready } in
      let health_changed = not (same_bool h.ready c.last_health_ready) in
      let ticked = dispatch_tick h begun in
      finish_custom1 h (auto_start h c given) health_changed ticked.1 source _
        (rw e (take_custom1-Starts h health_changed ticked.0)) ok
