-- ===== src/Mecanum/Tests.antt =====
-- A controller on concrete numbers: SelfCheck, Ready, Custom1 and Reset, and each theorem at it.
use xgc2_ugv_controller.Base.{
  ℕ, ◌+◌, ◌*◌, ◌^◌, ◌≤◌, ◌<◌, ◌≡◌, refl, true, ℤ, pos, pos_part, neg_part, List, [], ◌∷◌, some,
  none, u32_max, arith,
}
use xgc2_ugv_controller.Floating.Fixed.{fixed_double}
use xgc2_ugv_controller.StateMachine.{AdtMachine}
use xgc2_ugv_controller.Clock.Time.{time_from_sec, sub_time, duration_from_nsec, normalize, to_sec}
use xgc2_ugv_controller.Clock.Gate.{new_gate, due}
use xgc2_ugv_controller.ResetClient.Executor.Poll.{poll}
use xgc2_ugv_controller.ResetClient.Executor.Session.{
  set_spec, asks_again, set_timeout, new_executor, prepare, pending_results, install, finish,
  finish_as, request_authority, count_generation, permission_pending,
}
use xgc2_ugv_controller.Mecanum.Types.{
  AngleMath, ControlMode, OperatorCommand, UgvState, is_ok, state_fresh, inside_fence, finite_pose,
}
use xgc2_ugv_controller.Mecanum.Controller.{
  Controller, Alternative, Health, new_controller, apply_reset_spec, health, mode,
  reset_measurement,
}
use xgc2_ugv_controller.Mecanum.Handlers.{
  tick, tick_reset, publish_idle, handle_operator, prepare_reset, exit, enter, enter_reset,
  emit_reset_zero,
}
use xgc2_ugv_controller.Mecanum.Turn.{
  turn, turn_at, at_time, auto_start, dispatch_tick, take_command, take_health, take_finished,
  note_admission, change_to, apply_change,
}
use xgc2_ugv_controller.Mecanum.Modes.Turn.{Moves, turn-Moves}
use xgc2_ugv_controller.Mecanum.Events.{Event, handle_events}
use xgc2_ugv_controller.Mecanum.Events.Sound.{Leaves, handle_events-Leaves}
use xgc2_ugv_controller.Mecanum.Sessions.Turn.{Numbered, turn_at-Numbered}
use xgc2_ugv_controller.Mecanum.Exclusion.{IsFree, turn_at-IsFree}
use xgc2_ugv_controller.Mecanum.Twist.{SafeCommand, tick_reset-SafeCommand}
use xgc2_ugv_controller.Mecanum.Wake.{deadline_ns, deadline_ns_lem}

-- A machine that is just its alternative.
instance abbrev plain_machine : AdtMachine (Alternative ℤ) ℤ (Alternative ℤ)
plain_machine = record {
  start = λ s t. s;
  state = λ m. m;
  put = λ s m. s;
  apply = λ s t m. s;
  state-start = λ s t. refl;
  state-put = λ s m. refl;
  state-apply = λ s t m. refl;
}

instance abbrev plain_angles : AngleMath ℤ
plain_angles = record {
  normalize_angle = λ a. a;
  shortest_angular_distance = λ a b. fixed_double.sub b a;
}

abbrev Plain : Type 0
Plain = Controller ℤ (Alternative ℤ)

abbrev tenths : ℕ → ℤ
tenths n = pos (n * 10 ^ 8)

abbrev pose : UgvState ℤ
pose = record {
  stamp = record { sec = 10; nsec = 0 };
  x = tenths 5;
  y = tenths 5;
  yaw = pos 0;
  received = true;
  pose_stamp_trusted = true;
}

abbrev start : Plain
start = new_controller 7 fixed_double.infinity pose

abbrev healthy : Health
healthy = record { now = record { sec = 10; nsec = 100000000 }; ready = true }

abbrev in_ready : Plain
in_ready = record start {
  machine = Alternative.ready new_gate;
  current_time_sec = tenths 101;
  wall_time_sec = tenths 101;
  last_health_ready = true;
}

start_is_healthy : health (at_time (tenths 101) (tenths 101) start) ≡ some healthy
unfolding health at_time new_controller apply_reset_spec time_from_sec state_fresh sub_time
    duration_from_nsec normalize to_sec inside_fence finite_pose
start_is_healthy = refl

reset_is_entered :
    mode (turn_at healthy (some OperatorCommand.reset) "command" in_ready).0 ≡ ControlMode.reset
unfolding turn_at auto_start dispatch_tick tick publish_idle due take_command handle_operator
    prepare_reset prepare apply_change change_to exit enter enter_reset take_health take_finished
    note_admission new_controller apply_reset_spec set_spec asks_again set_timeout new_executor
    pending_results permission_pending install finish finish_as request_authority count_generation
    emit_reset_zero
reset_is_entered = refl

custom1_is_applied :
    is_ok (turn_at healthy (some OperatorCommand.custom1) "command" in_ready).1 ≡ true
unfolding turn_at auto_start dispatch_tick tick publish_idle due take_command handle_operator
    new_controller apply_reset_spec set_spec asks_again set_timeout new_executor permission_pending
custom1_is_applied = refl

turn-Moves_example :
    Moves (tenths 101) (tenths 101) none start (turn (tenths 101) (tenths 101) none "" start)
turn-Moves_example = turn-Moves (tenths 101) (tenths 101) none "" start

-- The health recovers, a Reset is commanded, and it is stopped.
abbrev run : List (Event ℤ)
run =
    Event.turns (tenths 101) (tenths 101) none ""
    ∷ Event.targets (record { x = pos 0; y = pos 0; yaw = pos 0; valid = true })
    ∷ Event.turns (tenths 102) (tenths 102) (some OperatorCommand.reset) "command"
    ∷ Event.turns (tenths 103) (tenths 103) (some OperatorCommand.stop) "command"
    ∷ []

handle_events-Leaves_example :
    Leaves {M = Alternative ℤ} (handle_events run (new_controller 7 fixed_double.infinity pose))
handle_events-Leaves_example = handle_events-Leaves 7 fixed_double.infinity pose run

in_ready_counter : in_ready.reset_session_counter ≤ u32_max
unfolding new_controller apply_reset_spec
in_ready_counter = omega arith

turn_at-Numbered_example :
    Numbered in_ready.reset_session_counter
      (is_ok (turn_at healthy (some OperatorCommand.reset) "command" in_ready).1)
      (turn_at healthy (some OperatorCommand.reset) "command" in_ready).0
turn_at-Numbered_example =
    turn_at-Numbered healthy (some OperatorCommand.reset) "command" in_ready in_ready_counter

custom1_is_given :
    auto_start healthy in_ready (some OperatorCommand.custom1) ≡ some OperatorCommand.custom1
unfolding auto_start
custom1_is_given = refl

turn_at-IsFree_example :
    IsFree (turn_at healthy (some OperatorCommand.custom1) "command" in_ready).0.executor
turn_at-IsFree_example =
    turn_at-IsFree healthy (some OperatorCommand.custom1) "command" in_ready custom1_is_given
      custom1_is_applied

abbrev in_reset : Plain
in_reset = (turn_at healthy (some OperatorCommand.reset) "command" in_ready).0

tick_reset-SafeCommand_example :
    SafeCommand healthy
      (reset_measurement healthy in_reset)
      (poll (reset_measurement healthy in_reset) in_reset.executor)
      (tick_reset healthy new_gate in_reset).1
tick_reset-SafeCommand_example = tick_reset-SafeCommand healthy new_gate in_reset

-- Frames of 2 ms from a phase of 5 ns.
deadline_ns_lem_example :
    (pos_part (pos 2000006) + neg_part (deadline_ns (some (pos 5)) (pos 2000000) (pos 2000006))
      < pos_part (deadline_ns (some (pos 5)) (pos 2000000) (pos 2000006)) + neg_part (pos 2000006))
    × (pos_part (deadline_ns (some (pos 5)) (pos 2000000) (pos 2000006)) + neg_part (pos 2000006)
        ≤ pos_part (pos 2000006)
          + neg_part (deadline_ns (some (pos 5)) (pos 2000000) (pos 2000006))
          + 2000000)
deadline_ns_lem_example = deadline_ns_lem (some (pos 5)) (pos 2000006) 2000000 (omega arith)
