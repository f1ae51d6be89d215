-- ===== src/Unicycle/Tests.antt =====
-- A unicycle controller on concrete numbers: a solve that is requested and completed, a horizon, a twist;
-- and each theorem at them.
use xgc2_ugv_controller.Base.{
  ℕ, ◌*◌, ◌^◌, ◌<◌, ◌≡◌, ◌⊎◌, refl, true, false, not, ◌||◌, ℤ, pos, negsuc, List, [], ◌∷◌, some,
  none, rem_ℤ, arith,
}
use xgc2_ugv_controller.Floating.Fixed.{fixed_double, magnitude}
use xgc2_ugv_controller.StateMachine.{AdtMachine}
use xgc2_ugv_controller.Clock.Gate.{due}
use xgc2_ugv_controller.ResetClient.Executor.Session.{
  set_spec, asks_again, set_timeout, new_executor, permission_pending,
}
use xgc2_ugv_controller.Mecanum.Types.{AngleMath, ControlMode, OperatorCommand}
use xgc2_ugv_controller.Mecanum.Controller.{requires_zero_command}
use xgc2_ugv_controller.Reference.Types.{TrajectoryMath}
use xgc2_ugv_controller.Unicycle.Types.{
  ControlCommand, NmpcCompletion, UgvState, WorldPvaReference, finite_pose, no_twist,
}
use xgc2_ugv_controller.Unicycle.Config.{ControllerConfig, controller_config}
use xgc2_ugv_controller.Unicycle.Flatness.{compute_flatness_command, flatness_yaw_rate}
use xgc2_ugv_controller.Unicycle.Flatness.Limits.{Tracks, compute_flatness_command-Tracks}
use xgc2_ugv_controller.Unicycle.Cache.{EvaluatorMath, ReferenceCache, sample_horizon, valid}
use xgc2_ugv_controller.Unicycle.Cache.Horizon.{Horizon, sample_horizon-Horizon}
use xgc2_ugv_controller.Unicycle.Controller.{
  Alternative, Controller, Custom1, ReferenceSource, apply_reset_spec, cmd_vel, new_controller,
  new_custom1,
}
use xgc2_ugv_controller.Unicycle.Controller.Twist.{
  AllowsRest, IsWithin, cmd_vel-IsWithin, limits_of,
}
use xgc2_ugv_controller.Unicycle.Tick.{request_solve}
use xgc2_ugv_controller.Unicycle.Events.{Event, handle_events}
use xgc2_ugv_controller.Unicycle.Requests.Calls.{Numbered, handle_events-Numbered}

instance abbrev plain_machine : AdtMachine (Alternative ℤ) ℤ (Alternative ℤ)
plain_machine = record {
  start = λ s t. s;
  state = λ m. m;
  put = λ s m. s;
  apply = λ s t m. s;
  state-start = λ s t. refl;
  state-put = λ s m. refl;
  state-apply = λ s t m. refl;
}

abbrev half_turn : ℕ
half_turn = 3141592653

instance abbrev plain_angles : AngleMath ℤ
plain_angles = record {
  normalize_angle = λ a. rem_ℤ a half_turn;
  shortest_angular_distance = λ a b. rem_ℤ (fixed_double.sub b a) half_turn;
}

abbrev IsTurn : ℤ → Type 0
IsTurn a = magnitude a < half_turn

normalize-IsTurn : (a : ℤ) → IsTurn (plain_angles.normalize_angle a)
normalize-IsTurn (pos n) = omega arith
normalize-IsTurn (negsuc n) = ground arith

abbrev tenths : ℕ → ℤ
tenths n = pos (n * 10 ^ 8)

-- An evaluator is its duration, and drives along the x axis at 1 m/s.
abbrev plain_math : TrajectoryMath ℤ ℤ ℕ
plain_math = record {
  fatal = 3;
  invalid_input = 1;
  hold = λ p. p.duration;
  circle = λ p. p.duration;
  figure_eight = λ p. p.duration;
  circle_entry = λ p. p.duration;
  set_samples = λ points explicit. some (tenths 50);
  solve = λ p flags. (some (tenths 30), flags);
  validate = λ e limits dt. 0;
  duration = λ e. e;
  order = λ e. 7;
  segments = λ e. [];
}

abbrev more : EvaluatorMath ℤ ℤ ℕ
more = record {
  no_limits = 0;
  set_segments = λ segments order. some (tenths 50);
  evaluate = λ e t. some (record {
    position = record { x = t; y = pos 0 };
    velocity = record { x = tenths 10; y = pos 0 };
    yaw = t;
    linear_acceleration = pos 0;
    yaw_rate = tenths 10;
    flags = 0;
  });
}

instance abbrev cache_source : ReferenceSource (ReferenceCache ℤ)
cache_source = record { valid = valid plain_math more }

abbrev active_cache : ReferenceCache ℤ
active_cache = record {
  evaluator = some (tenths 50);
  start_time = record { sec = 8; nsec = 0 };
  trajectory_id = 1;
  revision = 1;
  flags = 0;
}

sample_horizon-Horizon_example :
    Horizon plain_math more IsTurn normalize-IsTurn
      (record { sec = 10; nsec = 0 })
      (tenths 1)
      20
      active_cache
      (sample_horizon plain_math more (record { sec = 10; nsec = 0 }) (tenths 1) 20 active_cache)
sample_horizon-Horizon_example =
    sample_horizon-Horizon plain_math more IsTurn normalize-IsTurn (record { sec = 10; nsec = 0 })
      (tenths 1) 20 active_cache

abbrev pose : UgvState ℤ
pose = record {
  stamp = record { sec = 10; nsec = 0 };
  x = tenths 5;
  y = tenths 5;
  yaw = pos 0;
  vx = pos 0;
  vy = pos 0;
  speed = pos 0;
  yaw_rate = pos 0;
  estimator_state = 3;
  estimator_flags = 0;
  received = true;
  pose_stamp_trusted = true;
  velocity_valid = true;
}

-- A reference half a metre ahead, at 1 m/s, tracked 10 ms after the last tick.
abbrev ahead : WorldPvaReference ℤ
ahead = record {
  stamp = record { sec = 10; nsec = 0 };
  x = tenths 10;
  y = tenths 5;
  yaw = pos 0;
  vx = tenths 10;
  vy = pos 0;
  ax = pos 0;
  ay = pos 0;
  valid = true;
}

abbrev defaults : ControllerConfig ℤ
defaults = controller_config fixed_double.infinity

tracking_is_valid :
    (compute_flatness_command pose ahead (pos 0) (pos 10000000) defaults).valid ≡ true
unfolding compute_flatness_command flatness_yaw_rate finite_pose
tracking_is_valid = refl

compute_flatness_command-Tracks_example :
    Tracks pose ahead
      (pos 10000000)
      defaults
      (compute_flatness_command pose ahead (pos 0) (pos 10000000) defaults)
compute_flatness_command-Tracks_example =
    compute_flatness_command-Tracks pose ahead (pos 0) (pos 10000000) defaults tracking_is_valid

abbrev Plain : Type 0
Plain = Controller ℤ (Alternative ℤ) (ReferenceCache ℤ)

abbrev start : Plain
start = new_controller 7 fixed_double.infinity active_cache pose

-- In Custom1, at 10.1 s, with a command of 5 m/s and 1 rad/s.
abbrev fast : ControlCommand ℤ
fast = record {
  stamp = record { sec = 10; nsec = 50000000 };
  linear_speed = tenths 50;
  angular_speed = tenths 10;
  valid = true;
}

abbrev driving : Plain
driving = record start {
  machine = Alternative.custom1 (new_custom1 (pos 0) (tenths 101));
  current_time_sec = tenths 101;
  wall_time_sec = tenths 101;
  command = fast;
}

start_limits :
    AllowsRest (limits_of ControlMode.custom1 driving.config.tracking_strategy driving.config)
unfolding new_controller apply_reset_spec
start_limits = record { reverse = omega arith; forward = omega arith; turning = omega arith }

cmd_vel-IsWithin_example :
    IsWithin
      (limits_of ControlMode.custom1 driving.config.tracking_strategy driving.config)
      (cmd_vel ControlMode.custom1 driving)
    × (((requires_zero_command driving.executor || not driving.command.valid) ≡ false)
        ⊎ (cmd_vel ControlMode.custom1 driving ≡ no_twist))
cmd_vel-IsWithin_example = cmd_vel-IsWithin ControlMode.custom1 driving start_limits

-- The speed of 5 m/s is limited to 3 m/s.
speed_is_limited : (cmd_vel ControlMode.custom1 driving).linear_x ≡ tenths 30
unfolding cmd_vel new_controller apply_reset_spec set_spec asks_again set_timeout new_executor
    permission_pending
speed_is_limited = refl

abbrev waiting : Custom1 ℤ
waiting = record (new_custom1 (pos 0) (tenths 101)) {
  in_flight = some (record { sequence = 1; deadline = pos 10150000000 });
}

-- The first solve is requested, with its deadline.
solve_is_requested :
    (request_solve none (new_custom1 (pos 0) (tenths 101)) driving).0.in_flight
    ≡ some (record { sequence = 1; deadline = pos 10150000000 })
unfolding request_solve due new_controller apply_reset_spec
solve_is_requested = refl

abbrev solved : NmpcCompletion ℤ
solved = record { sequence = 1; command = some fast }

abbrev run : List (Event ℤ (ReferenceCache ℤ))
run =
    Event.turns (tenths 101) (tenths 101) none ""
    ∷ Event.turns (tenths 102) (tenths 102) (some OperatorCommand.custom1) "command"
    ∷ Event.turns (tenths 103) (tenths 103) none ""
    ∷ Event.completes (record solved {
      command = some (record fast { stamp = record { sec = 10; nsec = 300000000 } });
    })
    ∷ Event.turns (pos 10320000000) (pos 10320000000) none ""
    ∷ []

handle_events-Numbered_example :
    Numbered {M = Alternative ℤ}
      (handle_events run (new_controller 7 fixed_double.infinity active_cache pose))
handle_events-Numbered_example =
    handle_events-Numbered 7 fixed_double.infinity active_cache pose run
