-- ===== src/Mecanum/Modes.antt =====
-- mecanum_ugv_controller.cpp, `turn`: the control mode as an abstract machine.
pub mod Turn
use xgc2_ugv_controller.Base.{
  ◌≡◌, refl, sym, ap, ◌∙◌, Bool, true, false, not, ◌&&◌, ◌||◌, String, Option, none, some, if_cases,
  if◌then◌else◌, and_then, ◌==◌, u32_max, same_bool, subst, List, [], Bool-cases, Option-cases, inl,
  inr, arith,
}
use xgc2_ugv_controller.Floating.{Double}
use xgc2_ugv_controller.StateMachine.{AdtMachine}
use xgc2_ugv_controller.Clock.Gate.{PeriodicGate}
use xgc2_ugv_controller.Clock.Cadence.{WallControlCadence}
use xgc2_ugv_controller.ResetClient.Executor.{Run, permission, active}
use xgc2_ugv_controller.ResetClient.Executor.Session.{permission_pending, prepare}
use xgc2_ugv_controller.Mecanum.Types.{
  AngleMath, ControlMode, OperatorCommand, CommandOutcome, no_outcome, is_ok,
}
use xgc2_ugv_controller.Mecanum.Controller.{
  Controller, Alternative, Target, Change, Health, health, mode, mode_of, entered,
  world_reference_ready,
}
use xgc2_ugv_controller.Mecanum.Handlers.{
  tick, tick_custom1, tick_missing, tick_reset, handle_operator, handle_health, exit, enter,
  prepare_reset, prepared, no_credit, custom1_rules,
}
use xgc2_ugv_controller.Mecanum.Turn.{
  change_to, apply_change, dispatch_tick, take_command, take_health, take_finished, note_admission,
  turn_at, turn, auto_start, at_time, observed, is_custom1, refused,
}

abbrev pub drives : ControlMode → Bool
drives ControlMode.custom1 = true
drives ControlMode.reset = true
drives _ = false

abbrev pub is_self_check : ControlMode → Bool
is_self_check ControlMode.self_check = true
is_self_check _ = false

-- A turn of the abstract machine: whether the vehicle is healthy, the command, whether the command was
-- applied, and the modes before and after.
pub data Move (healthy : Bool)
    : Option OperatorCommand → Bool → ControlMode → ControlMode → Type 0 where
  rests : (i : Option OperatorCommand) (m : ControlMode) → Move healthy i false m m
  recovers :
      (i : Option OperatorCommand)
      → healthy ≡ true
      → Move healthy i false ControlMode.self_check ControlMode.ready
  loses :
      (i : Option OperatorCommand) (m : ControlMode)
      → healthy ≡ false
      → Move healthy i false m ControlMode.self_check
  finishes : (i : Option OperatorCommand) → Move healthy i false ControlMode.reset ControlMode.ready
  starts : Move healthy (some OperatorCommand.custom1) true ControlMode.ready ControlMode.custom1
  resets :
      (m : ControlMode)
      → is_self_check m ≡ false
      → Move healthy (some OperatorCommand.reset) true m ControlMode.reset
  stops :
      (m : ControlMode)
      → drives m ≡ true
      → Move healthy (some OperatorCommand.stop) true m ControlMode.ready

module _ {D : Type 0} ⦃f : Double D⦄ where
  -- What a handler decides, in a mode and with an outcome.
  pub data Decided (healthy : Bool) (i : Option OperatorCommand) (m : ControlMode)
      : Change D × CommandOutcome → Type 0 where
    stays : (o : CommandOutcome) → is_ok o ≡ false → Decided healthy i m (Change.stay, o)
    goes :
        (t : Target D) (o : CommandOutcome)
        → Move healthy i (is_ok o) m (mode_of (entered t))
        → Decided healthy i m (Change.enter t, o)

  prepared-Decided :
      (healthy : Bool) (m : ControlMode) (r : Option (Run D))
      → is_self_check m ≡ false
      → Decided healthy (some OperatorCommand.reset) m (prepared r)
  prepared-Decided healthy m none s = stays _ refl
  prepared-Decided healthy m (some run) s = goes (Target.reset run) _ (Move.resets m s)

  custom1_rules-Decided :
      (ready changed : Bool) (op : OperatorCommand)
      → Decided ready
          (some op)
          ControlMode.custom1
          (custom1_rules op (if changed then some ready else none) no_outcome)
  custom1_rules-Decided false true op = goes Target.self_check _ (Move.loses _ _ refl)
  custom1_rules-Decided true true OperatorCommand.stop = goes Target.ready _ (Move.stops _ refl)
  custom1_rules-Decided true true OperatorCommand.reset = stays _ refl
  custom1_rules-Decided true true OperatorCommand.custom1 = stays _ refl
  custom1_rules-Decided true true OperatorCommand.unknown = stays _ refl
  custom1_rules-Decided ready false OperatorCommand.stop = goes Target.ready _ (Move.stops _ refl)
  custom1_rules-Decided ready false OperatorCommand.reset = stays _ refl
  custom1_rules-Decided ready false OperatorCommand.custom1 = stays _ refl
  custom1_rules-Decided ready false OperatorCommand.unknown = stays _ refl

  pub handle_health-Decided :
      (s : Alternative D) (ready : Bool) (i : Option OperatorCommand)
      → Decided ready i (mode_of s) (handle_health s ready, no_outcome)
  unfolding handle_health
  handle_health-Decided (Alternative.self_check _) true i =
      goes Target.ready _ (Move.recovers i refl)
  handle_health-Decided (Alternative.self_check _) false i = stays _ refl
  handle_health-Decided (Alternative.ready _) false i =
      goes Target.self_check _ (Move.loses i _ refl)
  handle_health-Decided (Alternative.ready _) true i = stays _ refl
  handle_health-Decided (Alternative.custom1 _ _) false i =
      goes Target.self_check _ (Move.loses i _ refl)
  handle_health-Decided (Alternative.custom1 _ _) true i = stays _ refl
  handle_health-Decided (Alternative.reset _) false i =
      goes Target.self_check _ (Move.loses i _ refl)
  handle_health-Decided (Alternative.reset _) true i = stays _ refl

module _ {D M : Type 0} ⦃f : Double D⦄ where
  prepare_reset-Decided :
      (h : Health) (m : ControlMode) (c : Controller D M)
      → is_self_check m ≡ false
      → Decided h.ready (some OperatorCommand.reset) m (prepare_reset h c)
  unfolding prepare_reset
  prepare_reset-Decided h m c s =
      if_cases (Decided h.ready (some OperatorCommand.reset) m) (c.reset_session_counter == u32_max)
        (λ _. stays no_credit refl) (λ _. prepared-Decided h.ready m _ s)

  pub handle_operator-Decided :
      (h : Health) (s : Alternative D) (op : OperatorCommand) (changed : Bool) (c : Controller D M)
      → Decided h.ready
          (some op)
          (mode_of s)
          (handle_operator h s op (if changed then some h.ready else none) no_outcome c)
  unfolding handle_operator
  handle_operator-Decided h (Alternative.self_check _) op changed c = stays _ refl
  handle_operator-Decided h (Alternative.ready _) OperatorCommand.reset changed c =
      prepare_reset-Decided h _ c refl
  handle_operator-Decided h (Alternative.ready _) OperatorCommand.custom1 changed c =
      goes Target.custom1 _ Move.starts
  handle_operator-Decided h (Alternative.ready _) OperatorCommand.stop changed c = stays _ refl
  handle_operator-Decided h (Alternative.ready _) OperatorCommand.unknown changed c = stays _ refl
  handle_operator-Decided h (Alternative.custom1 _ _) OperatorCommand.reset changed c =
      prepare_reset-Decided h _ c refl
  handle_operator-Decided h (Alternative.custom1 _ _) OperatorCommand.stop changed c =
      custom1_rules-Decided h.ready changed OperatorCommand.stop
  handle_operator-Decided h (Alternative.custom1 _ _) OperatorCommand.custom1 changed c =
      custom1_rules-Decided h.ready changed OperatorCommand.custom1
  handle_operator-Decided h (Alternative.custom1 _ _) OperatorCommand.unknown changed c =
      custom1_rules-Decided h.ready changed OperatorCommand.unknown
  handle_operator-Decided h (Alternative.reset _) OperatorCommand.reset changed c =
      prepare_reset-Decided h _ c refl
  handle_operator-Decided h (Alternative.reset _) OperatorCommand.stop changed c =
      goes Target.ready _ (Move.stops _ refl)
  handle_operator-Decided h (Alternative.reset _) OperatorCommand.custom1 changed c = stays _ refl
  handle_operator-Decided h (Alternative.reset _) OperatorCommand.unknown changed c = stays _ refl

  -- A tick keeps the mode, and only a Reset ends.
  pub data Ticks (m : ControlMode) (r : Alternative D × Controller D M × Bool) : Type 0 where
    goes_on : mode_of r.0 ≡ m → r.2 ≡ false → Ticks m r
    ends : mode_of r.0 ≡ m → m ≡ ControlMode.reset → Ticks m r

  mode-tick_missing :
      (w : Option (WallControlCadence D)) (gate : PeriodicGate D) (sample : Option D)
      (c : Controller D M)
      → mode_of (tick_missing w gate sample c).0 ≡ ControlMode.custom1
  unfolding tick_missing
  mode-tick_missing none gate sample c = refl
  mode-tick_missing (some w) gate sample c = ground arith

  pub tick-Ticks :
      ⦃angle : AngleMath D⦄
      → (h : Health) (s : Alternative D) (c : Controller D M) → Ticks (mode_of s) (tick h s c)
  unfolding tick tick_custom1 tick_reset
  tick-Ticks h (Alternative.self_check gate) c = goes_on refl refl
  tick-Ticks h (Alternative.ready gate) c = goes_on refl refl
  tick-Ticks h (Alternative.custom1 gate sample) c =
      goes_on (ground (arith, mode-tick_missing c.wall_control gate sample c)) refl
  tick-Ticks h (Alternative.reset gate) c = ends (ground arith) refl

  module _ ⦃k : AdtMachine (Alternative D) D M⦄ where
    pub mode-change_to :
        (h : Health) (t : Target D) (c : Controller D M)
        → mode (change_to h t c) ≡ mode_of (entered t)
    unfolding change_to enter
    mode-change_to h Target.self_check c = ap mode_of (k.state-apply _ _ _)
    mode-change_to h Target.ready c = ap mode_of (k.state-apply _ _ _)
    mode-change_to h Target.custom1 c = ap mode_of (k.state-apply _ _ _)
    mode-change_to h (Target.reset run) c = ap mode_of (k.state-apply _ _ _)
