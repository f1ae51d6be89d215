-- ===== src/Mecanum/Sessions.antt =====
-- mecanum_ugv_controller.cpp, `prepareReset` and `enter(Reset&)`: the numbers of the Reset sessions.
pub mod Turn
use xgc2_ugv_controller.Base.{
  ℕ, ◌+◌, ◌%◌, ◌<◌, ◌≤◌, ◌≡◌, refl, sym, ap, ◌∙◌, subst, Bool, true, false, not, ◌&&◌, ◌||◌, ◌==◌,
  u32, u32_max, String, List, [], Option, none, some, if_cases, if◌then◌else◌, Option-cases,
  Bool-cases, inl, inr, arith, same_bool,
}
use xgc2_ugv_controller.Floating.{Double}
use xgc2_ugv_controller.StateMachine.{AdtMachine}
use xgc2_ugv_controller.Clock.Gate.{PeriodicGate}
use xgc2_ugv_controller.Clock.Cadence.{WallControlCadence}
use xgc2_ugv_controller.ResetClient.Protocol.{Pose}
use xgc2_ugv_controller.ResetClient.Executor.{
  Executor, Run, Measurement, Authority, active, permission, session_id, header,
}
use xgc2_ugv_controller.ResetClient.Executor.Session.{
  install, prepare, request_authority, count_generation, permission_pending,
}
use xgc2_ugv_controller.ResetClient.Executor.Step.{step}
use xgc2_ugv_controller.ResetClient.Executor.Fields.{header-with_permission, header-with_progress}
use xgc2_ugv_controller.Mecanum.Types.{
  AngleMath, ControlMode, OperatorCommand, CommandOutcome, no_outcome, is_ok,
}
use xgc2_ugv_controller.Mecanum.Controller.{
  Controller, Alternative, Target, Change, Health, mode, mode_of, reset_measurement, set_command,
  reset_target_ready,
}
use xgc2_ugv_controller.Mecanum.Handlers.{
  tick, tick_custom1, tick_missing, tick_reset, publish_idle, emit_reset_zero, exit, exit_reset,
  enter, enter_reset, handle_operator, handle_health, prepare_reset, prepared, no_credit,
  custom1_rules,
}
use xgc2_ugv_controller.Mecanum.Handlers.Effects.{executor-emit_reset_zero}
use xgc2_ugv_controller.Mecanum.Turn.{
  change_to, apply_change, dispatch_tick, take_command, take_health, take_finished, note_admission,
  turn_at, auto_start, is_custom1, observed,
}
use xgc2_ugv_controller.Mecanum.Modes.{mode-change_to}

abbrev pub is_reset : Option OperatorCommand → Bool
is_reset (some OperatorCommand.reset) = true
is_reset _ = false

module _ {D : Type 0} ⦃f : Double D⦄ where
  session_id-request_authority :
      (terminal : Bool) (e : Executor D) → session_id (request_authority terminal e) ≡ session_id e
  unfolding request_authority count_generation
  session_id-request_authority terminal e =
      grind (arith, header-with_permission, header-with_progress)

  session_id-install :
      (r : Run D) (m : Measurement D) (e : Executor D)
      → session_id (install r m e) ≡ r.header.session
  unfolding install
  session_id-install r m e = session_id-request_authority false _

  session-prepare :
      (n : ℕ) (t : Pose D) (valid : Bool) (m : Measurement D) (e : Executor D) (r : Run D)
      → prepare n t valid m e ≡ some r
      → r.header.session ≡ n
  unfolding prepare
  session-prepare n t valid m e r h = ground (arith, h)

  abbrev pub enters_reset : Change D → Bool
  enters_reset (Change.enter (Target.reset r)) = true
  enters_reset _ = false

  -- A decision that enters a Reset is that of an applied Reset command, under this number.
  pub data Numbers (n : ℕ) (i : Option OperatorCommand) : Change D × CommandOutcome → Type 0 where
    other :
        (t : Change D) (o : CommandOutcome)
        → enters_reset t ≡ false
        → (is_reset i && is_ok o) ≡ false
        → Numbers n i (t, o)
    numbered :
        (r : Run D) (o : CommandOutcome)
        → r.header.session ≡ n
        → n ≤ u32_max
        → (is_reset i && is_ok o) ≡ true
        → Numbers n i (Change.enter (Target.reset r), o)

  prepared-Numbers :
      (n : ℕ) (r : Option (Run D))
      → ((run : Run D) → r ≡ some run → run.header.session ≡ n)
      → n ≤ u32_max
      → Numbers n (some OperatorCommand.reset) (prepared r)
  prepared-Numbers n none s le = other _ _ refl refl
  prepared-Numbers n (some run) s le = numbered run _ (s run refl) le refl

  custom1_rules-Numbers :
      (n : ℕ) (op : OperatorCommand) (health : Option Bool)
      → is_reset (some op) ≡ false
      → Numbers n (some op) (custom1_rules op health no_outcome)
  custom1_rules-Numbers n op (some false) e = other _ _ refl (rw e refl)
  custom1_rules-Numbers n OperatorCommand.stop (some true) e = other _ _ refl refl
  custom1_rules-Numbers n OperatorCommand.custom1 (some true) e = other _ _ refl refl
  custom1_rules-Numbers n OperatorCommand.unknown (some true) e = other _ _ refl refl
  custom1_rules-Numbers n OperatorCommand.reset (some true) e = cc
  custom1_rules-Numbers n OperatorCommand.stop none e = other _ _ refl refl
  custom1_rules-Numbers n OperatorCommand.custom1 none e = other _ _ refl refl
  custom1_rules-Numbers n OperatorCommand.unknown none e = other _ _ refl refl
  custom1_rules-Numbers n OperatorCommand.reset none e = cc

module _ {D M : Type 0} ⦃f : Double D⦄ where
  prepare_reset-Numbers :
      (h : Health) (c : Controller D M)
      → c.reset_session_counter ≤ u32_max
      → Numbers (c.reset_session_counter + 1) (some OperatorCommand.reset) (prepare_reset h c)
  unfolding prepare_reset
  prepare_reset-Numbers h c le =
      if_cases (Numbers (c.reset_session_counter + 1) (some OperatorCommand.reset))
        (c.reset_session_counter == u32_max) (λ _. other _ no_credit refl refl)
        (λ room.
          let exact : u32 (c.reset_session_counter + 1) ≡ c.reset_session_counter + 1 =
            ground (arith, room, le) in
          prepared-Numbers (c.reset_session_counter + 1) _
            (λ run e. session-prepare _ _ _ _ c.executor run e ∙ exact) (ground (arith, room, le)))

  pub handle_operator-Numbers :
      (h : Health) (s : Alternative D) (op : OperatorCommand) (health : Option Bool)
      (c : Controller D M)
      → c.reset_session_counter ≤ u32_max
      → Numbers (c.reset_session_counter + 1) (some op) (handle_operator h s op health no_outcome c)
  unfolding handle_operator
  handle_operator-Numbers h (Alternative.self_check _) op health c le =
      other _ _ refl (ground arith)
  handle_operator-Numbers h (Alternative.ready _) OperatorCommand.reset health c le =
      prepare_reset-Numbers h c le
  handle_operator-Numbers h (Alternative.ready _) OperatorCommand.custom1 health c le =
      other _ _ refl refl
  handle_operator-Numbers h (Alternative.ready _) OperatorCommand.stop health c le =
      other _ _ refl refl
  handle_operator-Numbers h (Alternative.ready _) OperatorCommand.unknown health c le =
      other _ _ refl refl
  handle_operator-Numbers h (Alternative.custom1 _ _) OperatorCommand.reset health c le =
      prepare_reset-Numbers h c le
  handle_operator-Numbers h (Alternative.custom1 _ _) OperatorCommand.custom1 health c le =
      custom1_rules-Numbers _ _ health refl
  handle_operator-Numbers h (Alternative.custom1 _ _) OperatorCommand.stop health c le =
      custom1_rules-Numbers _ _ health refl
  handle_operator-Numbers h (Alternative.custom1 _ _) OperatorCommand.unknown health c le =
      custom1_rules-Numbers _ _ health refl
  handle_operator-Numbers h (Alternative.reset _) OperatorCommand.reset health c le =
      prepare_reset-Numbers h c le
  handle_operator-Numbers h (Alternative.reset _) OperatorCommand.custom1 health c le =
      other _ _ refl refl
  handle_operator-Numbers h (Alternative.reset _) OperatorCommand.stop health c le =
      other _ _ refl refl
  handle_operator-Numbers h (Alternative.reset _) OperatorCommand.unknown health c le =
      other _ _ refl refl

  counter-emit_reset_zero :
      (force : Bool) (gate : PeriodicGate D) (c : Controller D M)
      → (emit_reset_zero force gate c).1.reset_session_counter ≡ c.reset_session_counter
  unfolding emit_reset_zero
  counter-emit_reset_zero force gate c = ground arith

  pub counter-exit :
      (h : Health) (s : Alternative D) (c : Controller D M)
      → (exit h s c).1.reset_session_counter ≡ c.reset_session_counter
  unfolding exit exit_reset
  counter-exit h (Alternative.self_check gate) c = refl
  counter-exit h (Alternative.ready gate) c = refl
  counter-exit h (Alternative.custom1 gate sample) c = refl
  counter-exit h (Alternative.reset gate) c = counter-emit_reset_zero true gate _

  counter-tick_missing :
      (w : Option (WallControlCadence D)) (gate : PeriodicGate D) (sample : Option D)
      (c : Controller D M)
      → (tick_missing w gate sample c).1.reset_session_counter ≡ c.reset_session_counter
  unfolding tick_missing
  counter-tick_missing none gate sample c = refl
  counter-tick_missing (some w) gate sample c = ground arith

  pub counter-tick :
      ⦃angle : AngleMath D⦄
      → (h : Health) (s : Alternative D) (c : Controller D M)
      → (tick h s c).1.reset_session_counter ≡ c.reset_session_counter
  unfolding tick publish_idle tick_custom1 tick_reset set_command
  counter-tick h (Alternative.self_check gate) c = ground arith
  counter-tick h (Alternative.ready gate) c = ground arith
  counter-tick h (Alternative.custom1 gate sample) c =
      ground (arith, counter-tick_missing c.wall_control gate sample c)
  counter-tick h (Alternative.reset gate) c = ground (
    arith,
    counter-emit_reset_zero false gate
        (record c { executor = (step (reset_measurement h c) c.executor).0 }),
  )

  pub counter-enter_other :
      (h : Health) (t : Target D) (c : Controller D M)
      → enters_reset (Change.enter t) ≡ false
      → (enter h t c).1.reset_session_counter ≡ c.reset_session_counter
  unfolding enter
  counter-enter_other h Target.self_check c e = refl
  counter-enter_other h Target.ready c e = refl
  counter-enter_other h Target.custom1 c e = refl
  counter-enter_other h (Target.reset r) c e = cc

  pub counter-enter_reset :
      (h : Health) (r : Run D) (c : Controller D M)
      → (enter h (Target.reset r) c).1.reset_session_counter ≡ u32 (c.reset_session_counter + 1)
  unfolding enter enter_reset
  counter-enter_reset h r c = counter-emit_reset_zero true _ _

  pub session_id-enter_reset :
      (h : Health) (r : Run D) (c : Controller D M)
      → session_id (enter h (Target.reset r) c).1.executor ≡ r.header.session
  unfolding enter enter_reset
  session_id-enter_reset h r c =
      ap session_id (executor-emit_reset_zero true _ _) ∙ session_id-install r _ c.executor
